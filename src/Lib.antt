-- ===== src/Lib.antt =====
-- otpd verifies one-time passwords. A request thread (work_thread.c) hands a validated request to
-- verify() in otp.c, which looks the user up, reads the key and the PIN, fetches and locks the
-- user's state, tests the passcode against the responses of the user's token, and writes the state
-- back. A token type is a table of operations (cardops.h) that verify() calls through pointers.
-- The state is in a file under a lock, or at a state manager (gsmd) that state.c talks to in
-- messages under the Helix cipher; a thread for each manager (failover_thread.c) changes between its
-- two hosts when gsmd() in state.c signals that the primary does not answer.
--
-- The files and what they model:
--   Base, Stdio    Boolean tests, lists, octets and C strings; sprintf() and sscanf() of the
--                  conversions that the program uses
--   Word, Helix    bitmanip.h and helix.c: words of 32 bits, the block function, the key schedule
--                  (Key), encryption and decryption (Cipher); Lengths and RoundTrip are proofs
--   Xfunc          xfunc.c: a2x(), a2nx(), x2a()
--   Crypto         the calls of libcrypto, a record of functions: that code is not here
--   Otp            otp.h, extern.h, cardops.h: requests, replies, settings, users, states
--   Cardops        cardops.h: cardops_t as a record; Cardops/Book the laws that a token type owes
--   Decrypt        otp.c: decrypt()
--   Compare        otp.c: compare(), key_from_hash()
--   Site           site.c: challenge_transform()
--   HotpMac        hotp.c: hotp_mac()
--   Card/Counter   cardops/hotp.c: the 8 octet counter of hotp_challenge()
--   Card/Window    cardops/hotp.c: updatecsd() and isconsecutive(), the saved window position
--   Card/Hotp      cardops/hotp.c: the token's operations; Search and Replay prove what they do
--                  under verify()
--   Card/X99Mac, Card/Cryptocard, Card/X99, Card/Totp
--                  x99.c and the tokens of cardops/cryptocard.c, x99.c, totp.c and c200.c
--   Card/Book      that every token type meets the laws of Cardops/Book
--   Store          state.c: Text is state_parse() and state_unparse(), File state_read() and
--                  state_write(), Local state_get_local() and state_put_local(), Global
--                  state_get_global() and state_put_global(), Session state_get() and state_put()
--                  as the store of verify(); Fetched, Released and Single are proofs
--   Gsm            gsm.h, state.c: gsmd(). Packet opens and tests a received message, Exchange is
--                  the loop of gsmd(); the other files are proofs
--   Failover       failover_thread.c: a round of its loop, and in Monitor the thread with its
--                  semaphore; Rounds, Over, Back, Awake and Stuck are proofs
--   Work           work_thread.c: the tests of a request; Stream is its reads and writes, Thread the
--                  connection; Fit, Convert and Served are proofs
--   Uhash, Gsmd, Nonce
--                  uhash.c, gsmd.c (the state managers in hash chains), nonce.c
--   Lock           lock.c: the chain of locks of one bucket, as nodes with addresses
--   Verify         otp.c: verify(). Run is the exits of its blocks, Setup the blocks up to the test
--                  of the passcode's length, Fail the fail condition, Async and Sync the two
--                  searches, Settle the block at auth_done, Decide their sequence, Session the
--                  whole. The other files under Verify prove what it does.
--   Otpauth        otpauth.c: verify() of the client; Laws joins it with work_thread.c
--   Resync         resynctool.c: main() behind its options; its Laws are about the search
--   Passwd         userops/file.c: file_get(). Lines is fgets() and the search, Entry the format of
--                  a line; Laws, Parse and Alias are proofs
--   Ldap           userops/ldap.c: ldap_get() behind its search. Entry is the attributes of an
--                  entry, Timeout update_timeout(); Laws is a proof
--   Tests          runs at concrete inputs and the theorems at them
--
-- How the code is read. Numbers are natural numbers; a uint32_t is kept below 2^32 by `u32`, and
-- the sums and differences of the code wrap where it is written. A buffer that holds a string is
-- the list of its characters before the NUL. A `goto` of verify() is a value of Jump or Decision.
-- The loops over the window recurse on the number of rounds left, which the code computes before
-- them, so there is no fuel; the walk along a chain of locks has one round for each node. verify()
-- is read with the user lookup and the state store as parameters, which it calls through their
-- interfaces: Times holds what the clock returns, Userops and StateOps what the calls return.
-- Store/Session fills StateOps for a thread, which meets what other threads did between its calls;
-- `stuck` there is a call that is undefined or still waits. A step
-- that C leaves undefined is the value `undefined` of verify(), and `none` of the locks.
--
-- The network is a sequence of events, one for each round of a loop, with the time that the round
-- takes or the readings of the clock; a loop that still runs at the end of its events is `pending`,
-- and Gsm.Ends shows that it ends when the time is used up. The layout of the request structures is
-- a parameter. helix.c and bitmanip.h are read for a little-endian machine.
--
-- Not modelled: the log; userops->put(), which frees the user; the parser of the settings
-- (config.y); the connections and searches of userops/ldap.c,
-- which are calls of libldap; accept_thread.c and main.c,
-- which make sockets and start threads; the options and the output of otpauth.c
-- and resynctool.c.
pub mod Base
pub mod Word
pub mod Helix
pub mod Gsm
pub mod Failover
pub mod Work
pub mod Passwd
pub mod Ldap
pub mod Otpauth
pub mod Resync
pub mod Xfunc
pub mod Stdio
pub mod Crypto
pub mod Otp
pub mod Cardops
pub mod Decrypt
pub mod Compare
pub mod Site
pub mod HotpMac
pub mod Card
pub mod Store
pub mod Lock
pub mod Uhash
pub mod Gsmd
pub mod Nonce
pub mod Verify
pub mod Tests
