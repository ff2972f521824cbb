-- ===== src/Tests/Clients.antt =====
-- otpauth.c: the client asks a thread that grants what begins with "00".
use otpd.Base.{
  ℕ, ◌≡◌, refl, true, false, some, List, [], ◌∷◌, ◌++◌, arith, Bytes, take, drop, get_or, replicate,
  map, Without,
}
use otpd.Otp.{Reply, Request, Config, ok}
use otpd.Verify.Session.{Verified, returned}
use otpd.Word.{le_word}
use otpd.Work.{RawRequest, bad_charset, validate, passes}
use otpd.Work.Stream.{octets, write_loop, wrote}
use otpd.Work.Stream.Laws.{Fills}
use otpd.Work.Thread.{Layout, served, turn}
use otpd.Otpauth.{
  pos, rc_value, build_request, interrupted, some_octets, otp_read, write_interrupted, accepted,
  otp_write, sent, System, otp_connect, ClientLayout, told, ask,
}
use otpd.Otpauth.Laws.{asked, validate-build_request, Arrives, Returns, ask-turn}
use otpd.Tests.{config, pass, reply}
use otpd.Tests.Works.{no_chap, raw, v1}

abbrev joe : Bytes
joe = b'j' ∷ b'o' ∷ b'e' ∷ []

-- What the structure holds before.
abbrev stack : RawRequest
stack = record raw {
  username = replicate 32 7;
  challenge = replicate 17 7;
  passcode = replicate 48 7;
  challenge_delay = 7;
}

charset : bad_charset joe ≡ false
unfolding bad_charset
charset = refl

joe_text : Without 0 joe
joe_text = (refl, (refl, (refl, tt)))

pass_text : Without 0 (pass 7)
pass_text = (refl, (refl, (refl, (refl, (refl, (refl, tt))))))

validate-build_request_example :
    validate (build_request stack joe (pass 7)) ≡ passes (asked joe (pass 7))
validate-build_request_example =
    validate-build_request stack joe (pass 7) refl refl refl (omega arith) (omega arith) joe_text
      pass_text charset

-- The version, the arrays and the numbers, each of which is an octet.
abbrev encode : RawRequest → Bytes
encode r =
    2
    ∷ 0
    ∷ 0
    ∷ 0
    ∷ (r.username
        ++ (r.challenge
            ++ r.pwe
              ∷ (r.passcode ++ r.allow_async ∷ r.allow_sync ∷ r.challenge_delay ∷ r.resync ∷ [])))

abbrev decode_v2 : Bytes → RawRequest
decode_v2 s = record {
  username = take 32 (drop 4 s);
  challenge = take 17 (drop 36 s);
  pwe = get_or s 53 0;
  passcode = take 48 (drop 54 s);
  chap = no_chap;
  allow_async = get_or s 102 0;
  allow_sync = get_or s 103 0;
  challenge_delay = get_or s 104 0;
  resync = get_or s 105 0;
}

abbrev encode_reply : Reply → Bytes
encode_reply answer = rc_value answer.rc ∷ (answer.passcode ++ replicate 42 0)

abbrev client : ClientLayout
client = record {
  encode = encode;
  size_reply = 49;
  decode = λ s. record { version = pos 1; rc = pos (get_or s 0 0); passcode = drop 1 s };
}

abbrev layout : Layout
layout = record {
  size_v2 = 106;
  size_v1 = 200;
  size_reply = 49;
  version = λ s. le_word s;
  decode_v2 = decode_v2;
  decode_v1 = λ s. v1;
}

abbrev request : RawRequest
request = build_request stack joe (pass 7)

abbrev answer : Reply
answer = record { rc = ok; passcode = pass 7 }

abbrev grants : Config → Request → Reply → ℕ → Verified ℕ
grants settings given old n = returned answer 1

-- The request is written in two pieces and the reply is read in two, each time with a signal.
abbrev system : System
system = record {
  sun_path = 108;
  socket_ok = true;
  connect_ok = true;
  writes = accepted 50 ∷ write_interrupted ∷ accepted 56 ∷ [];
  reads =
      some_octets (take 9 (encode_reply answer))
      ∷ interrupted
      ∷ some_octets (drop 9 (encode_reply answer))
      ∷ [];
}

goes_out : otp_write [] (encode request) system.writes ≡ sent (encode request)
unfolding otp_write build_request
goes_out = refl

abbrev first : List Bytes
first = (2 ∷ 0 ∷ []) ∷ (0 ∷ 0 ∷ []) ∷ []

abbrev second : List Bytes
second = take 60 (drop 4 (encode request)) ∷ drop 64 (encode request) ∷ []

arrives :
    Arrives client layout system [] grants config 5 stack joe
      (pass 7)
      encode_reply
      (encode request)
      first
      second
unfolding build_request le_word Fills
arrives = record {
  version_octets = (omega arith, (omega arith, refl));
  other_octets = (omega arith, (omega arith, refl));
  whole = refl;
  version = refl;
  decoded = refl;
}

returns : Returns client layout system [] grants config 5 stack joe (pass 7) encode_reply answer
unfolding otp_connect otp_read rc_value
returns = record {
  connects = refl;
  comes_in = refl;
  array = pass 7 ++ replicate 42 0;
  ended = refl;
  decoded = refl;
}

written : write_loop 49 0 (some 40 ∷ some 9 ∷ []) ≡ wrote
unfolding write_loop
written = refl

ask-turn_example :
    (turn layout grants config 5 raw reply 0
        (map octets first ++ (map octets second ++ []))
        (some 40 ∷ some 9 ∷ [])
      ≡ served request answer 1 [])
    × (ask client system stack [] joe (pass 7) ≡ told (pos (rc_value ok)))
ask-turn_example =
    ask-turn client layout system [] grants config 5 stack joe (pass 7) encode_reply raw reply
      answer 0 1 (encode request) first second [] (some 40 ∷ some 9 ∷ []) (refl, refl, refl)
      (omega arith) (omega arith) joe_text pass_text charset goes_out arrives refl written returns
