-- ===== src/Mfa/Examples.antt =====
-- internal/mfa: a user with a second factor, two recovery codes and two trusted devices, run on small
-- inputs.
use certus.Common.{
  ℕ, bytes_equal_refl, is_space, pos, string_key, hash_key, ◌≤◌, ◌≡◌, refl, ◌≢◌, true, none, some,
  List, [], ◌∷◌, arith, ok, Time, Hash, bytes_equal, IsDict,
}
use certus.Mfa.Types.{TrustedDevice, MemoryCredential, MemoryRepository}
use certus.Mfa.Repository.{find, use_totp, record_failure}
use certus.Mfa.Devices.{store_trusted_device, rotate_trusted_device}
use certus.Mfa.Codes.{
  hash_recovery_code, byte_at, truncated, trim_codes, normalize_code, totp_code_pattern,
  byte_length, Crypto,
}
use certus.Mfa.Service.{lock_after, fail, verify_code, verify}
use certus.Mfa.History.{run, totp_call, recovery_call}
use certus.Mfa.Replay.{totp_single_use}
use certus.Mfa.Recovery.{stored, uses, recovery_code_uses-le}
use certus.Mfa.Rotation.{trusted_token_single_use}
use certus.Mfa.Guesses.{budget, all_miss, AllButBlind, Guess}
use certus.Mfa.Lockout.{guesses_bounded}
use certus.Mfa.Accepted.{issued_code_accepted}
use certus.Mfa.Enrolment.{new_recovery_code}
use certus.Mfa.Limit.{device_count, store_trusted_device-le}

-- A stand-in for the functions that are parameters: every code of a step is "000000".
abbrev toy : Crypto
toy = record {
  available = true;
  decrypt = λ user_id ciphertext. ok ciphertext;
  encrypt = λ user_id plaintext. ok plaintext;
  hmac_sha1 = λ key message. [];
  sha256 = λ bytes. bytes;
  to_upper = λ cs. cs;
}

abbrev alice : MemoryCredential
alice = record {
  credential = record {
    user_id = "alice";
    secret = [];
    enabled = true;
    created_at = 0;
    verified_at = some 1;
    last_used_step = pos 7;
    failed_attempts = 1;
    locked_until = none;
    recovery_codes = 0;
  };
  stored_codes = (1 ∷ []) ∷ (2 ∷ []) ∷ [];
}

abbrev device : Hash → Time → TrustedDevice
device hash used = record {
  user_id = "alice";
  token_hash = hash;
  user_agent_hash = 5 ∷ [];
  created_at = 1;
  last_used_at = used;
  expires_at = 900;
}

abbrev start : MemoryRepository
start = record {
  credentials = ("alice", alice) ∷ [];
  trusted_devices = (8 ∷ [], device (8 ∷ []) 10) ∷ (9 ∷ [], device (9 ∷ []) 20) ∷ [];
}

-- RFC 6238's truncation, on the example of RFC 4226, section 5.4.
truncated_test :
    truncated (
      0x1f ∷ 0x86 ∷ 0x98 ∷ 0x69 ∷ 0x0e ∷ 0x02 ∷ 0xca ∷ 0x16 ∷ 0x61 ∷ 0x85 ∷ 0x50 ∷ 0xef ∷ 0x7f
      ∷ 0x19 ∷ 0xda ∷ 0x8e ∷ 0x94 ∷ 0x5b ∷ 0x55 ∷ 0x5a ∷ [])
    ≡ 0x50ef7f19
unfolding truncated byte_at
truncated_test = refl

totp_single_use_example :
    (use_totp
      (run
        (use_totp start "alice" (pos 9)).0
        (recovery_call "alice" (1 ∷ []) ∷ totp_call "alice" (pos 12) ∷ []))
      "alice"
      (pos 9)).1
    ≢ ok tt
unfolding use_totp
totp_single_use_example =
    totp_single_use start "alice" (pos 9) (pos 9)
      (recovery_call "alice" (1 ∷ []) ∷ totp_call "alice" (pos 12) ∷ []) refl (tt, (tt, tt)) refl

recovery_code_uses-le_example :
    uses "alice"
      (1 ∷ [])
      start
      (recovery_call "alice" (1 ∷ []) ∷ recovery_call "alice" (1 ∷ []) ∷ [])
    ≤ stored "alice" (1 ∷ []) start
recovery_code_uses-le_example =
    recovery_code_uses-le "alice" (1 ∷ []) start
      (recovery_call "alice" (1 ∷ []) ∷ recovery_call "alice" (1 ∷ []) ∷ []) (tt, (tt, tt))

trusted_token_single_use_example :
    (rotate_trusted_device
      (run
        (rotate_trusted_device start "alice" (8 ∷ []) (3 ∷ []) (5 ∷ []) 30).0
        (totp_call "alice" (pos 12) ∷ []))
      "alice"
      (8 ∷ [])
      (4 ∷ [])
      (5 ∷ [])
      40).1
    ≢ ok 900
unfolding rotate_trusted_device bytes_equal
trusted_token_single_use_example =
    trusted_token_single_use start "alice" "alice" (8 ∷ []) (3 ∷ []) (5 ∷ []) (4 ∷ []) (5 ∷ []) 30
      40 900 900 (totp_call "alice" (pos 12) ∷ []) refl refl (tt, tt)

-- Six wrong codes within five minutes, with one failure on record.
abbrev guesses : List Guess
guesses =
    record { code = b'x' ∷ []; now = 100; match_now = 100 }
    ∷ record { code = b'y' ∷ []; now = 101; match_now = 101 }
    ∷ record { code = b'z' ∷ []; now = 102; match_now = 102 }
    ∷ record { code = b'x' ∷ []; now = 103; match_now = 103 }
    ∷ record { code = b'y' ∷ []; now = 104; match_now = 104 }
    ∷ record { code = b'z' ∷ []; now = 105; match_now = 105 }
    ∷ []

guesses_bounded_example : AllButBlind toy "alice" (budget "alice" start) start guesses
unfolding all_miss verify verify_code find totp_code_pattern normalize_code trim_codes is_space
    byte_length fail record_failure lock_after
guesses_bounded_example =
    guesses_bounded toy "alice" 100 start guesses
      (
        (omega arith, omega arith),
        (
          (omega arith, omega arith),
          (
            (omega arith, omega arith),
            (
              (omega arith, omega arith),
              ((omega arith, omega arith), ((omega arith, omega arith), tt)),
            ),
          ),
        ),
      )
      refl

start-IsDict : IsDict start.trusted_devices
unfolding bytes_equal
start-IsDict = (refl, (refl, tt))

store_trusted_device-le_example :
    device_count "alice" (store_trusted_device start (device (7 ∷ []) 30) 2).0.trusted_devices ≤ 2
unfolding store_trusted_device
store_trusted_device-le_example =
    store_trusted_device-le start (device (7 ∷ []) 30) 2 start-IsDict (omega arith) refl

-- A code of 18 zero bytes, stored for alice.
abbrev zeros : List ℕ
zeros = 0 ∷ 0 ∷ 0 ∷ 0 ∷ 0 ∷ 0 ∷ 0 ∷ 0 ∷ 0 ∷ 0 ∷ 0 ∷ 0 ∷ 0 ∷ 0 ∷ 0 ∷ 0 ∷ 0 ∷ 0 ∷ []

abbrev with_code : MemoryCredential
with_code = record alice { stored_codes = hash_recovery_code toy (new_recovery_code zeros) ∷ [] }

abbrev with_codes : MemoryRepository
with_codes = record start { credentials = ("alice", with_code) ∷ [] }

issued_code_accepted_example :
    (verify toy with_codes "alice" (new_recovery_code zeros) 100 100).1 ≡ ok tt
issued_code_accepted_example =
    issued_code_accepted toy with_codes "alice" with_code zeros 100 100 (λ xs h. refl) refl refl
      refl refl (rw (bytes_equal_refl (hash_recovery_code toy (new_recovery_code zeros))))
