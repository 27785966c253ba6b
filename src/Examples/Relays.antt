-- ===== src/Examples/Relays.antt =====
-- Runs of the operations on relays.
use relais.Base.{refl, true, []}
use relais.Base.Int.{pos}
use relais.Text.{codes, is_space, trim_left, trim_right, trim_space, lower_rune}
use relais.Crypto.Keyring.{find_key, is_key_id, seal_with}
use relais.Store.Rows.{Backend, queued}
use relais.Store.Session.{query}
use relais.Store.Backends.{
  NewBackend, create_backend, normalize, check_params, trimmed, seal_backend_password,
  check_backend,
}
use relais.Store.Backends.Creation.{Configured, create_backend-Configured}
use relais.Examples.Samples.{keys, secrets, open_cipher-IsCipher, world_of}

-- a second relay, whose concurrency is left to the default
abbrev second : NewBackend
second = record {
  name = codes " second ";
  host = codes "relay2.example.net";
  port = pos 465;
  tls_mode = codes "TLS";
  auth_user = codes "user";
  auth_password = codes "password";
  helo_name = [];
  max_concurrency = pos 0;
  enabled = true;
}

abbrev second_row : Backend
second_row = record {
  id = 9;
  name = codes "second";
  host = codes "relay2.example.net";
  port = 465;
  tls_mode = codes "tls";
  auth_user = codes "user";
  auth_password_sealed = codes "v1:k1:A--password";
  helo_name = [];
  max_concurrency = 2;
  enabled = true;
}

create_backend-Configured_example : Configured keys second second_row
unfolding create_backend normalize check_params trimmed seal_backend_password check_backend query
    find_key is_key_id seal_with trim_space trim_left trim_right is_space lower_rune
create_backend-Configured_example =
    create_backend-Configured secrets.sql keys (codes "--") second (world_of queued []) second_row
      open_cipher-IsCipher (record { active_id = refl; active_key = refl }) refl refl
