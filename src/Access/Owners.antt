-- ===== src/Access/Owners.antt =====
-- The owner of a resource reaches it, and no one else.
use keyrus.Base.{
  ℕ, zero, suc, ◌≤◌, ◌≡◌, ◌≢◌, ◌↔◌, refl, sym, subst, Bool, true, false, not, some, [], ◌∷◌, ltb,
  ◌==◌, if◌then◌else◌, length, all, arith, ok, err,
}
use keyrus.Base.Text.{Text, text_eq, text_eq_sound, text_eq_refl}
use keyrus.Access.{Identity, resource_unavailable, padded, is_empty, authorize_owner}

-- no byte of the text is zero
abbrev pub has_no_zero : Text → Bool
has_no_zero = all (λ c. not (c == 0))

padded-eq :
    (v w : Text) (n : ℕ)
    → length v ≤ n
    → length w ≤ n
    → has_no_zero v ≡ true
    → has_no_zero w ≡ true
    → text_eq (padded v n) (padded w n) ≡ true
    → text_eq v w ≡ true
unfolding padded
padded-eq [] [] n a b x y h = refl
padded-eq [] (d ∷ w) zero a b x y h = absurd (omega (arith, b))
padded-eq [] (d ∷ w) (suc n) a b x y h = absurd (ground (arith, y, h))
padded-eq (c ∷ v) [] zero a b x y h = absurd (omega (arith, a))
padded-eq (c ∷ v) [] (suc n) a b x y h = absurd (ground (arith, x, h))
padded-eq (c ∷ v) (d ∷ w) zero a b x y h = absurd (omega (arith, a))
padded-eq (c ∷ v) (d ∷ w) (suc n) a b x y h =
    let rest = padded-eq v w n (omega (arith, a)) (omega (arith, b)) in
    ground (arith, x, y, h, rest)

-- Where neither the merchant of the identity nor the owner that the resolver names has a zero byte,
-- Authorize of the guard permits access exactly when the resource exists, the identity has a
-- merchant, and that merchant is the owner; in every other case where the resolver answers, the
-- refusal is the same one.
pub authorize_owner_lem :
    (i : Identity) (owner : Text) (found : Bool)
    → has_no_zero i.merchant_id ≡ true
    → has_no_zero owner ≡ true
    → ((authorize_owner (some (owner, found)) i ≡ ok tt)
        ↔ ((found ≡ true) × (is_empty i.merchant_id ≡ false) × (i.merchant_id ≡ owner)))
      × ((authorize_owner (some (owner, found)) i ≢ ok tt)
          → authorize_owner (some (owner, found)) i ≡ err resource_unavailable)
unfolding authorize_owner
authorize_owner_lem i owner found x y =
    let own = i.merchant_id in
    let width = if ltb (length own) (length owner) then length owner else length own in
    let same = padded-eq own owner width (ground arith) (ground arith) x y in
    (
      (
        λ h. (
          ground (arith, h),
          ground (arith, h),
          text_eq_sound own owner (same (ground (arith, h))),
        ),
        λ (there, mine, e).
            let matched : text_eq (padded own width) (padded owner width) ≡ true =
              subst (λ (v : Text). text_eq (padded v width) (padded owner width) ≡ true) (sym e)
                (text_eq_refl (padded owner width)) in
            ground (arith, there, mine, matched),
      ),
      λ h. ground (arith, h),
    )
