-- ===== src/Tests/Chains.antt =====
-- uhash.c, gsmd.c and nonce.c: the theorems at concrete inputs.
use otpd.Base.{◌<◌, ◌≡◌, refl, some, List, [], ◌∷◌, arith, length}
use otpd.Gsmd.{Gsmd, gsmd_get, chain_find, gsmd_hash, gsmd_first}
use otpd.Gsmd.Laws.{configured, gsmd_get-configured, all_from, walk, walk-gsmd_first}
use otpd.Tests.{toy_cipher}

abbrev pub west : Gsmd
west = record {
  name = b'w' ∷ b'e' ∷ b's' ∷ b't' ∷ [];
  hosts = 2;
  active = 0;
  fo_timeout = 3000000000;
  fb_timeout = 1000000000;
  scontext = toy_cipher;
}

abbrev pub east : Gsmd
east = record {
  name = b'e' ∷ b'a' ∷ b's' ∷ b't' ∷ [];
  hosts = 1;
  active = 0;
  fo_timeout = 0;
  fb_timeout = 0;
  scontext = toy_cipher;
}

abbrev pub both : List Gsmd
both = west ∷ east ∷ []

gsmd_get-configured_example : gsmd_get east.name (configured both) ≡ chain_find east.name both
gsmd_get-configured_example = gsmd_get-configured east.name both

find_run : chain_find east.name both ≡ some east
unfolding chain_find
find_run = refl

few : length (all_from (configured both) 64 0) < 3
unfolding gsmd_hash
few = omega arith

walk-gsmd_first_example :
    walk (configured both) 3 (gsmd_first (configured both)) ≡ all_from (configured both) 64 0
walk-gsmd_first_example = walk-gsmd_first (configured both) 3 few
