-- ===== src/Examples/Patterns.antt =====
-- Runs of the patterns, the keyring and the rate limiter.
use relais.Base.{ℕ, ◌≡◌, ◌↔◌, refl, ◌≤◌, true, not, List, [], ◌∷◌, ok, length, equal}
use relais.Base.Int.{pos, or_default}
use relais.Text.{
  Text, codes, len, rune_len, is_space, trim_left, trim_right, trim_space, cut_prefix, trim_suffix,
  cut_last, split_onto, lower_rune,
}
use relais.Crypto.Keyring.{
  parse_keyring, parse_entries, entry_keys, add_entry, decode_key, is_key_id, find_key,
  choose_active, cut, seal_with, open_envelope, needs_rewrap, Bytes,
}
use relais.Crypto.Seal.{IsKeyring, parse_keyring-IsKeyring, open_envelope-seal}
use relais.FromPattern.Normalize.{
  is_allowed_local_rune, quoted, misplaced_dot, normalize_local, is_label_rune, hyphen_edge,
  check_label, check_labels, check_domain, normalize_domain,
}
use relais.FromPattern.Parse.{
  address_string, cut_subdomain, join_address, parse_address, parse_local, join_pattern, parse,
}
use relais.FromPattern.Matching.{matches, seen, new_set_onto, allows}
use relais.FromPattern.RoundTrip.{parse_address-address_string}
use relais.FromPattern.PatternRoundTrip.{parse-normalized}
use relais.FromPattern.Covers.{Covers, matches_iff}
use relais.FromPattern.AllowList.{new_set-allows, grants_any}
use relais.Store.Rows.{queued, find_backend}
use relais.Store.Session.{World}
use relais.Store.Routes.{Keys}
use relais.Store.Backends.{sealed_rows, rewrap_backend_passwords}
use relais.Store.Backends.Passwords.{Unchanged, rewrap_backend_passwords-Unchanged}
use relais.RateLimit.{allow, get, Limiter}
use relais.RateLimit.Isolation.{allow_all, allow_all_bound}
use relais.Examples.Samples.{
  plain_idna, plain_idna-IsStable, alice, bob, anyone_below, only_alice, open_cipher,
  open_cipher-IsCipher, one_key, two_keys, counting, keys, world_of, relay_row,
}

parse_address-address_string_example : parse_address plain_idna (address_string alice) ≡ ok alice
unfolding parse_address trim_space trim_left trim_right is_space len rune_len cut_last join_address
    normalize_local normalize_domain lower_rune is_allowed_local_rune quoted misplaced_dot
    trim_suffix check_domain check_labels check_label split_onto is_label_rune hyphen_edge
parse_address-address_string_example =
    parse_address-address_string plain_idna (codes " Alice@EXAMPLE.com. ") {a = alice}
      plain_idna-IsStable refl

parse-normalized_example : parse plain_idna anyone_below.normalized ≡ ok anyone_below
unfolding parse trim_space trim_left trim_right is_space len rune_len cut_last cut_prefix
    cut_subdomain parse_local join_pattern normalize_local normalize_domain lower_rune
    is_allowed_local_rune quoted misplaced_dot trim_suffix check_domain check_labels check_label
    split_onto is_label_rune hyphen_edge
parse-normalized_example =
    parse-normalized plain_idna (codes "*@*.Example.com") {p = anyone_below} plain_idna-IsStable
      refl

matches_iff_example : (matches anyone_below bob ≡ true) ↔ Covers anyone_below bob
matches_iff_example = matches_iff anyone_below bob refl refl

abbrev texts : List Text
texts = codes "alice@example.com" ∷ codes "*@*.example.com" ∷ codes "Alice@Example.com" ∷ []

new_set-allows_example :
    allows (only_alice ∷ anyone_below ∷ []) bob ≡ grants_any plain_idna bob texts
unfolding new_set_onto seen parse trim_space trim_left trim_right is_space len rune_len cut_last
    cut_prefix cut_subdomain parse_local join_pattern normalize_local normalize_domain lower_rune
    is_allowed_local_rune quoted misplaced_dot trim_suffix check_domain check_labels check_label
    split_onto is_label_rune hyphen_edge
new_set-allows_example =
    new_set-allows plain_idna texts bob {s = only_alice ∷ anyone_below ∷ []} plain_idna-IsStable
      refl

parse_keyring-IsKeyring_example : IsKeyring one_key
unfolding parse_entries entry_keys add_entry decode_key is_key_id find_key choose_active cut
    trim_space trim_left trim_right is_space split_onto parse_keyring
parse_keyring-IsKeyring_example =
    parse_keyring-IsKeyring open_cipher (codes " k1: A0123456789abcdef0123456789abcdef,") []
      {k = one_key} refl

open_envelope-seal_example :
    (open_envelope open_cipher two_keys (codes "v1:k1:A--password") ≡ ok (codes "password"))
    × (needs_rewrap two_keys (codes "v1:k1:A--password") ≡ not (equal (codes "k1") (codes "k2")))
unfolding find_key is_key_id seal_with
open_envelope-seal_example =
    open_envelope-seal open_cipher one_key two_keys (codes "--") (codes "password")
      {envelope = codes "v1:k1:A--password"} open_cipher-IsCipher
      (record { active_id = refl; active_key = refl }) refl refl refl

allow_all_bound_example :
    length
      (allow_all counting (relais.RateLimit.new_limiter (pos 2) (pos 10)) (
        record { key = codes "a"; rps = 5; burst = pos 3; now = 1 }
        ∷ record { key = codes "b"; rps = 5; burst = pos 3; now = 2 }
        ∷ record { key = codes "c"; rps = 5; burst = pos 3; now = 3 }
        ∷ [])).buckets
    ≤ or_default (pos 2) 10000
allow_all_bound_example =
    allow_all_bound counting (pos 2) (pos 10)
      (record { key = codes "a"; rps = 5; burst = pos 3; now = 1 }
        ∷ record { key = codes "b"; rps = 5; burst = pos 3; now = 2 }
        ∷ record { key = codes "c"; rps = 5; burst = pos 3; now = 3 }
        ∷ [])
      (refl, (refl, (refl, tt)))

-- a password that is sealed under the old key
abbrev rotating : Keys
rotating = record keys { keyring = two_keys }

abbrev nonce_of : ℕ → Bytes
nonce_of id = codes "--"

abbrev old_seal : World
old_seal =
    let w = world_of queued [] in
    record w {
      db = record (w.db) {
        backends = record relay_row { auth_password_sealed = codes "v1:k1:A--password" } ∷ [];
      };
    }

rewrap_backend_passwords-Unchanged_example :
    Unchanged rotating old_seal (rewrap_backend_passwords rotating nonce_of (λ bs. bs) old_seal).1
unfolding find_key is_key_id sealed_rows find_backend
rewrap_backend_passwords-Unchanged_example =
    rewrap_backend_passwords-Unchanged rotating open_cipher-IsCipher
      (record { active_id = refl; active_key = refl }) nonce_of (λ id. refl) (λ bs. bs) old_seal
      (refl, tt)
