-- ===== src/Routing/Hash.antt =====
-- The hash ring of cpp/common/routing.cpp: `fnv1a32`, and the owners of a range of buckets.
use Prim.Native.Nat.{bit_xor}
use mini.Base.{
  ℕ, zero, suc, ◌+◌, ◌-◌, ◌*◌, ◌/◌, ◌%◌, ◌^◌, Bool, true, false, leb, ltb, if◌then◌else◌, ℤ, pos,
  pos_part, ltb_ℤ, min_ℤ, max_ℤ, Text, text_eq, List, [], ◌∷◌, length, get_or, min, Option, none,
  some,
}

-- The `n` bytes of `x` that are left, the lowest first, into the hash `h`.
unfoldable pub fnv_rounds : ℕ → ℕ → ℕ → ℕ
fnv_rounds zero h x = h
fnv_rounds (suc n) h x = fnv_rounds n (bit_xor h (x % 256) * 16777619 % 2 ^ 32) (x / 256)

unfoldable pub fnv1a32 : ℕ → ℕ
unfolding fnv_rounds
fnv1a32 x = fnv_rounds 4 2166136261 x

unfoldable pub has_text : Text → List Text → Bool
has_text t [] = false
has_text t (x ∷ xs) = if text_eq x t then true else has_text t xs

-- `std::set::insert`.
unfoldable pub insert_text : Text → List Text → List Text
unfolding has_text
insert_text t xs = if has_text t xs then xs else t ∷ xs

-- The owner of bucket `b`: its vnode, striped over the owners.
unfoldable pub owner_of : ℕ → ℕ → List Text → ℕ → Text
unfolding fnv1a32
owner_of vnodes_per_owner total_vnodes order b =
    get_or order (min (fnv1a32 (b % 2 ^ 32) % total_vnodes / vnodes_per_owner) (length order - 1))
      []

-- The loop over `count` buckets from `b` on, which stops once as many owners are hit as there are.
unfoldable pub hit_buckets : ℕ → ℕ → List Text → ℕ → ℕ → List Text → List Text
unfolding owner_of insert_text
hit_buckets vnodes_per_owner total_vnodes order zero b hit = hit
hit_buckets vnodes_per_owner total_vnodes order (suc count) b hit =
    let now = insert_text (owner_of vnodes_per_owner total_vnodes order b) hit in
    let rest = hit_buckets vnodes_per_owner total_vnodes order count (suc b) now in
    if leb (length order) (length now) then now else rest

-- `none`: more buckets than the cap of four for each vnode. The range of buckets is put in order and
-- starts at 0 at the least.
unfoldable pub hash_owners : ℕ → ℕ → List Text → ℤ → ℤ → Option (List Text)
unfolding hit_buckets
hash_owners vnodes_per_owner total_vnodes order low high =
    let b_lo = pos_part (min_ℤ low high) in
    let b_end = if ltb_ℤ (max_ℤ low high) (pos 0) then 0 else pos_part (max_ℤ low high) + 1 in
    if ltb (total_vnodes * 4) (b_end - b_lo)
    then none
    else some (hit_buckets vnodes_per_owner total_vnodes order (b_end - b_lo) b_lo [])
