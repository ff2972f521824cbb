-- ===== src/Base/Strings.antt =====
-- Bytes, C strings (the characters before the NUL) and the calls of string.h on them.
use Prim.Native.Nat.{ℕ, ◌+◌, ◌<◌}
use mathlib.Core.Path.{◌≡◌, refl}
use mathlib.Core.Bool.{Bool, true, false, ◌&&◌}
use mathlib.Core.List.{List, [], ◌∷◌, ◌++◌}
use mathlib.Core.Option.{Option, none, some}
use native.Mathlib.Omega.{arith}
use otpd.Base.Tests.{◌==◌, leb, if◌then◌else◌}
use otpd.Base.Lists.{take, drop, All}

abbrev pub Bytes : Type 0
Bytes = List ℕ

abbrev pub IsByte : ℕ → Type 0
IsByte b = b < 256

-- The string that a buffer holds: its bytes up to the first NUL.
unfoldable pub cstr : Bytes → Bytes
cstr [] = []
cstr (c ∷ s) = if c == 0 then [] else c ∷ cstr s

-- `strcmp(s, t) == 0`, and `memcmp` of areas of one length.
unfoldable pub bytes_eq : Bytes → Bytes → Bool
bytes_eq [] [] = true
bytes_eq [] (_ ∷ _) = false
bytes_eq (_ ∷ _) [] = false
bytes_eq (a ∷ s) (b ∷ t) = (a == b) && bytes_eq s t

pub bytes_eq_refl : (s : Bytes) → bytes_eq s s ≡ true
unfolding bytes_eq
bytes_eq_refl [] = refl
bytes_eq_refl (a ∷ s) = ground (arith, bytes_eq_refl s)

pub bytes_eq→eq : (s t : Bytes) → bytes_eq s t ≡ true → s ≡ t
unfolding bytes_eq
bytes_eq→eq [] [] h = refl
bytes_eq→eq [] (b ∷ t) h = ground arith
bytes_eq→eq (a ∷ s) [] h = ground arith
bytes_eq→eq (a ∷ s) (b ∷ t) h = ground (arith, bytes_eq→eq s t)

-- `memcpy(dst, src, n)`: the first `n` bytes of `dst` are replaced.
abbrev pub memcpy : Bytes → Bytes → ℕ → Bytes
memcpy dst src n = take n src ++ drop n dst

-- `strchr(s, c)`: what stands before the first `c`, and what stands behind it.
unfoldable pub strchr : ℕ → Bytes → Option (Bytes × Bytes)
strchr c [] = none
strchr c (a ∷ s) =
    let rest = strchr c s in
    if a == c then some ([], s) else elim rest [ none ↦ none | some (l, r) ↦ some (a ∷ l, r) ]

abbrev pub Without : ℕ → Bytes → Type 0
Without c s = All (λ a. (a == c) ≡ false) s

pub strchr-append : (c : ℕ) (s t : Bytes) → Without c s → strchr c (s ++ c ∷ t) ≡ some (s, t)
unfolding strchr
strchr-append c [] t h = ground arith
strchr-append c (a ∷ s) t h = ground (arith, strchr-append c s t h.1)

pub strchr-none : (c : ℕ) (s : Bytes) → Without c s → strchr c s ≡ none
unfolding strchr
strchr-none c [] h = refl
strchr-none c (a ∷ s) h = ground (arith, strchr-none c s h.1)

-- `strncmp(p, s, strlen(s)) == 0`: what follows the prefix `s` in `p`.
unfoldable pub strip_prefix : Bytes → Bytes → Option Bytes
strip_prefix [] p = some p
strip_prefix (c ∷ s) [] = none
strip_prefix (c ∷ s) (a ∷ p) = if c == a then strip_prefix s p else none

pub strip_prefix-append : (s p : Bytes) → strip_prefix s (s ++ p) ≡ some p
unfolding strip_prefix
strip_prefix-append [] p = refl
strip_prefix-append (c ∷ s) p = ground (arith, strip_prefix-append s p)

-- `tolower` in the C locale, and `strcasecmp(s, t) == 0`, `strncasecmp(s, t, strlen(s)) == 0`.
unfoldable pub tolower : ℕ → ℕ
tolower c = if leb b'A' c && leb c b'Z' then c + 32 else c

unfoldable pub strcasecmp_eq : Bytes → Bytes → Bool
unfolding tolower
strcasecmp_eq [] [] = true
strcasecmp_eq [] (_ ∷ _) = false
strcasecmp_eq (_ ∷ _) [] = false
strcasecmp_eq (a ∷ s) (b ∷ t) = (tolower a == tolower b) && strcasecmp_eq s t

unfoldable pub has_prefix_nocase : Bytes → Bytes → Bool
unfolding tolower
has_prefix_nocase [] t = true
has_prefix_nocase (_ ∷ _) [] = false
has_prefix_nocase (a ∷ s) (b ∷ t) = (tolower a == tolower b) && has_prefix_nocase s t
