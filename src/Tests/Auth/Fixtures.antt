-- ===== src/Tests/Auth/Fixtures.antt =====
-- Concrete crates, a concrete file format, and token records.
use update_delivery_system.Prelude.{
  ℕ, ◌≡◌, refl, String, true, false, none, some, List, [], ◌∷◌, arith, ◌==◌, str_eq, if◌then◌else◌,
}
use update_delivery_system.Prelude.Text.{contains_char}
use update_delivery_system.Errors.{ok}
use update_delivery_system.Auth.{Crates, AdminTokenRecord}
use update_delivery_system.Auth.Tokens.{UuidText}
use update_delivery_system.Auth.Durability.{ReadsBack}
use update_delivery_system.Auth.Store.{Json, TokenStore}

-- One identifier with a text form, and a digest that names the number of bytes up to two.
abbrev pub digest : List ℕ → String
digest [] = "00"
digest (x ∷ []) = "01"
digest (x ∷ y ∷ l) = "02"

abbrev pub crates : Crates
crates = record {
  sha512_hex = digest;
  parse_uuid = λ s. if str_eq s "0007" then some 7 else none;
  show_uuid = λ n. if n == 7 then "0007" else "0000";
}

pub uuid_text : UuidText crates 7
unfolding contains_char
uuid_text = record { reads_back = refl; no_underscore = refl }

-- The file holds the records themselves.
abbrev pub json : Json
json = record { Bytes = List AdminTokenRecord; encode = ok; decode = ok }

pub same_records :
    (rs bytes : List AdminTokenRecord) → json.encode rs ≡ ok bytes → json.decode bytes ≡ ok rs
same_records rs bytes h = ground arith

pub reads_back : ReadsBack json
reads_back = record { reads_back = same_records }

abbrev pub record_7 : AdminTokenRecord
record_7 = record {
  id = 7;
  verifier = "sha512:02";
  name = "Thorsten";
  created_at = 100;
  creation_reason = "daily work";
  enabled = true;
  status_history = [];
  revision = 1;
  last_mutation_id = 40;
}

-- The same token after it was disabled on another node.
abbrev pub disabled_7 : AdminTokenRecord
disabled_7 = record record_7 {
  enabled = false;
  status_history =
      record { enabled = false; changed_at = 200; reason = "lost"; mutation_id = 41 } ∷ [];
  revision = 2;
  last_mutation_id = 41;
}

abbrev pub empty_store : TokenStore json
empty_store = record { file = none; records = [] }

abbrev pub store_7 : TokenStore json
store_7 = record { file = some (record_7 ∷ []); records = record_7 ∷ [] }

abbrev pub token_7 : String
token_7 = "uds_admin_v1_0007_secret"

abbrev pub owner_token : String
owner_token = "uds_owner_v1_secret"

abbrev pub owner_verifier : String
owner_verifier = "sha512:02"
