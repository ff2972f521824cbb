-- ===== src/Site/Laws.antt =====
-- site.c: the transform stays inside the array.
use otpd.Base.{
  ℕ, zero, suc, [], ◌∷◌, ◌+◌, ◌-◌, ◌≤◌, ◌≡◌, ap, ◌∙◌, ◌++◌, ◌==◌, if◌then◌else◌, arith, length,
  take, drop, length-take, length-drop, length-append, take-append_self, min, Bytes,
}
use otpd.Site.{challenge_transform}

front_at :
    (clen : ℕ)
    → clen ≤ 16
    → (if clen == 16 then clen - 2 else if clen == 15 then clen - 1 else clen) ≡ min clen 14
front_at clen fits = ground arith

take_both :
    (n : ℕ) (xs ys zs : Bytes) → n ≡ length xs + length ys → take n (xs ++ (ys ++ zs)) ≡ xs ++ ys
take_both n [] ys zs e =
    let whole : n ≡ length ys = omega (arith, e) in
    ap (λ k. take k (ys ++ zs)) whole ∙ take-append_self ys zs
take_both zero (x ∷ xs) ys zs e = absurd (omega arith)
take_both (suc n) (x ∷ xs) ys zs e = ap (λ r. x ∷ r) (take_both n xs ys zs (omega arith))

-- In an array of 16 octets with a challenge of at most 16, the new challenge fits the array, the
-- array keeps its size, and the challenge is the first 14 octets at most of the old one, followed by
-- the first two characters at most of the name.
pub challenge_transform_lem :
    (username challenge : Bytes) (clen : ℕ)
    → length challenge ≡ 16
    → clen ≤ 16
    → ((challenge_transform username challenge clen).1 ≤ 16)
      × (length (challenge_transform username challenge clen).0 ≡ 16)
      × (take
            (challenge_transform username challenge clen).1
            (challenge_transform username challenge clen).0
          ≡ take (min clen 14) challenge ++ take 2 username)
unfolding challenge_transform
challenge_transform_lem username challenge clen full fits =
    let at = min clen 14 in
    let front = length-take at challenge in
    let name = length-take 2 username in
    let rest = length-drop (at + length (take 2 username)) challenge in
    rw (front_at clen fits) (
      omega arith,
      omega (
        arith,
        front,
        name,
        rest,
        length-append (take at challenge)
            (take 2 username ++ drop (at + length (take 2 username)) challenge),
        length-append (take 2 username) (drop (at + length (take 2 username)) challenge),
        full,
      ),
      take_both (at + length (take 2 username)) (take at challenge) (take 2 username) _
          (omega (arith, front, full)),
    )
