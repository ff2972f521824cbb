-- ===== src/Site.antt =====
-- site.c: the default site transform, which appends two characters of the user's name.
pub mod Laws
use otpd.Base.{ℕ, ◌+◌, ◌-◌, ◌++◌, ◌==◌, if◌then◌else◌, length, take, drop, Bytes}

-- `challenge_transform(username, challenge, clen)` on the array of 16 octets: the new array and
-- the new length.
unfoldable pub challenge_transform : Bytes → Bytes → ℕ → Bytes × ℕ
challenge_transform username challenge clen =
    let at = if clen == 16 then clen - 2 else if clen == 15 then clen - 1 else clen in
    let name = take 2 username in
    (take at challenge ++ (name ++ drop (at + length name) challenge), at + length name)
