-- ===== src/Inode/Device.antt =====
-- The device that unsquashfs makes: `create_inode` of squashfs-tools/unsquashfs.c.
use external_squashfs_tools.Common.{ℕ, ◌/◌, ◌%◌, ◌^◌, ◌<◌, ◌≡◌, ap, ap₂, ◌∙◌, ◌↔◌, arith}
use external_squashfs_tools.Inode.Create.{Request, rdev_of}
use external_squashfs_tools.Inode.Cases.{rdev_of_lem}

-- The arguments of `makedev` for mknod, from the inode's `data`.
pub makedev_args : (data_size : ℕ) → ℕ × ℕ
makedev_args data_size = (data_size / 2 ^ 8 % 2 ^ 8, data_size % 2 ^ 8)

-- From the number that mksquashfs writes for a device, unsquashfs makes a device with the low 8
-- bits of its major and of its minor number: it is the same device exactly when both numbers are
-- below 256, though the image keeps 12 bits of the one and 20 of the other.
pub makedev_args-rdev_of :
    (r : Request)
    → (makedev_args (rdev_of r.major r.minor) ≡ (r.major % 2 ^ 8, r.minor % 2 ^ 8))
      × ((makedev_args (rdev_of r.major r.minor) ≡ (r.major, r.minor))
          ↔ ((r.major < 2 ^ 8) × (r.minor < 2 ^ 8)))
unfolding makedev_args
makedev_args-rdev_of r =
    let e = rdev_of_lem r in
    let major : rdev_of r.major r.minor / 2 ^ 8 % 2 ^ 8 ≡ r.major % 2 ^ 8 = omega (arith, e) in
    let minor : rdev_of r.major r.minor % 2 ^ 8 ≡ r.minor % 2 ^ 8 = omega (arith, e) in
    let both = ap₂ (λ x y. (x, y)) major minor in
    (
      both,
      (
        λ q.
            let m = ap (λ p. p.0) q in
            let n = ap (λ p. p.1) q in (omega (arith, m, major), omega (arith, n, minor)),
        λ h. both ∙ ap₂ (λ x y. (x, y)) (let l = h.0 in omega arith) (let l = h.1 in omega arith),
      ),
    )
