-- ===== src/Tests/Auth.antt =====
-- src/auth.rs and src/errors.rs at concrete inputs.
pub mod Fixtures
use update_delivery_system.Prelude.{
  ℕ, ◌≡◌, ◌↔◌, refl, String, Bool, true, false, Option, none, some, List, [], ◌∷◌, ◌++◌, arith, All,
  inl, inr,
}
use update_delivery_system.Prelude.Text.{◌<>◌, is_empty, trim, strip_prefix, split_once, as_bytes}
use update_delivery_system.Prelude.Words.{wrapping_add}
use update_delivery_system.Errors.{Result, ok, err, io, storage, into_response}
use update_delivery_system.Errors.Answers.{into_response_hides_internal}
use update_delivery_system.Auth.{
  admin, ActorIdentity, AdminTokenMetadata, constant_time_eq, verify_owner, parse_admin_token,
  verify_token, verifier, to_metadata, require_text, generate_admin_token,
}
use update_delivery_system.Auth.Digest.{constant_time_eq_iff}
use update_delivery_system.Auth.Tokens.{owner_token_is_no_admin_token}
use update_delivery_system.Auth.Records.{
  find, merge_one, merge_all, newer, with_status, replace, same_status,
}
use update_delivery_system.Auth.Merge.{merge_converges}
use update_delivery_system.Auth.Lifecycle.{IsSound, IsConsistent, mutations-IsSound}
use update_delivery_system.Auth.Credentials.{created_token_authenticates, disabled_token_is_refused}
use update_delivery_system.Auth.Restart.{
  set_enabled_survives_restart, create_survives_restart, retry_answers_success_unwritten,
}
use update_delivery_system.Auth.Store.{
  PersistIo, TokenStore, healthy, persist, commit, create, merge, set_enabled, set_found,
  authenticate, open_store, up_to_rename,
}
use Fixtures.{
  crates, json, uuid_text, reads_back, record_7, disabled_7, empty_store, store_7, token_7,
  owner_token, owner_verifier,
}

into_response_hides_internal_example :
    into_response 1 (io "no space left") ≡ into_response 1 (storage "blob is incomplete")
into_response_hides_internal_example =
    into_response_hides_internal 1 (io "no space left") (storage "blob is incomplete")
      (unfold into_response in refl) (unfold into_response in refl)

owner_token_is_no_admin_token_example : parse_admin_token crates owner_token ≡ none
owner_token_is_no_admin_token_example =
    owner_token_is_no_admin_token crates owner_token owner_verifier
      (unfold verify_owner verify_token strip_prefix constant_time_eq as_bytes in refl)

agree_7 :
    (id : ℕ) (r c : _)
    → find id (record_7 ∷ []) ≡ some r
    → find id (disabled_7 ∷ []) ≡ some c
    → r.revision ≡ c.revision
    → r.last_mutation_id ≡ c.last_mutation_id
    → r ≡ c
unfolding find
agree_7 id r c h k e f = ground arith

merge_converges_example :
    find 7 (merge_all (disabled_7 ∷ []) (record_7 ∷ []) false).0
    ≡ find 7 (merge_all (record_7 ∷ []) (disabled_7 ∷ []) false).0
unfolding find
merge_converges_example =
    merge_converges (record_7 ∷ []) (disabled_7 ∷ []) 7 (refl, tt) (refl, tt) agree_7

IsSound-store_7 : IsSound store_7
unfolding find
IsSound-store_7 = record {
  unique = (refl, tt);
  consistent = (record { status = refl; counted = refl }, tt);
}

mutations-IsSound_example :
    IsSound (create crates json healthy (ok "secret") 8 50 300 "deploy" "automation" store_7).1
    × IsSound (merge json healthy (disabled_7 ∷ []) store_7).1
    × IsSound (set_enabled crates json healthy 50 300 7 false "automation" store_7).1
unfolding find
mutations-IsSound_example =
    mutations-IsSound crates json healthy store_7 (ok "secret") 8 7 50 300 "deploy" "automation"
      false (disabled_7 ∷ []) IsSound-store_7 refl (record { status = refl; counted = refl }, tt)
      (λ r e. ground arith)

created_7 :
    (create crates json healthy (ok "secret") 7 40 100 "Thorsten" "daily work" empty_store).0
    ≡ ok (to_metadata record_7, token_7)
unfolding create commit persist require_text generate_admin_token is_empty trim verifier as_bytes
created_7 = refl

created_token_authenticates_example :
    authenticate crates json token_7
      (create crates json healthy (ok "secret") 7 40 100 "Thorsten" "daily work" empty_store).1
    ≡ some (record { actor_type = admin; token_id = some 7; token_name = some "Thorsten" }, true)
unfolding find is_empty trim
created_token_authenticates_example =
    created_token_authenticates crates json healthy 7 40 100 "Thorsten" "daily work" "secret"
      token_7 (to_metadata record_7) empty_store uuid_text refl refl created_7

create_survives_restart_example :
    open_store json
      (ok tt)
      (create crates json healthy (ok "secret") 7 40 100 "Thorsten" "daily work" empty_store).1.file
    ≡ ok (create crates json healthy (ok "secret") 7 40 100 "Thorsten" "daily work" empty_store).1
create_survives_restart_example =
    create_survives_restart crates json reads_back healthy (ok "secret") 7 40 100 "Thorsten"
      "daily work" empty_store (to_metadata record_7, token_7) created_7

abbrev disabling : Result AdminTokenMetadata × TokenStore json
disabling = set_enabled crates json healthy 41 200 7 false "lost" store_7

disabled_answer : disabling.0 ≡ ok (to_metadata disabled_7)
unfolding set_enabled commit persist require_text is_empty trim find replace with_status
    wrapping_add
disabled_answer = refl

disabled_reopens : open_store json (ok tt) disabling.1.file ≡ ok disabling.1
unfolding open_store set_enabled commit persist require_text is_empty trim find replace with_status
    wrapping_add
disabled_reopens = refl

set_enabled_survives_restart_example : open_store json (ok tt) disabling.1.file ≡ ok disabling.1
set_enabled_survives_restart_example =
    set_enabled_survives_restart crates json reads_back healthy 41 200 7 false "lost" store_7
      (to_metadata disabled_7) (record_7 ∷ [], refl, refl) disabled_answer

abbrev actor_7 : ActorIdentity
actor_7 = record { actor_type = admin; token_id = some 7; token_name = some "Thorsten" }

still_known : authenticate crates json token_7 disabling.1 ≡ some (actor_7, false)
unfolding authenticate parse_admin_token strip_prefix split_once is_empty verify_token
    constant_time_eq as_bytes set_enabled commit persist require_text trim find replace with_status
    wrapping_add
still_known = refl

disabled_token_is_refused_example : ◌≡◌ {A = Bool} false false
unfolding require_text is_empty trim
disabled_token_is_refused_example =
    disabled_token_is_refused crates json reads_back healthy 7 41 200 "lost" token_7 store_7
      disabling.1 actor_7 false refl
      (inr (to_metadata disabled_7, disabled_answer, (record_7 ∷ [], refl, refl), disabled_reopens))
      still_known refl

-- The disk is full when the file is written.
abbrev full_disk : PersistIo
full_disk = record healthy { write_tmp = err (io "no space left") }

retry_answers_success_unwritten_example :
    let first = set_enabled crates json full_disk 41 200 7 false "lost" store_7 in
    let second = set_enabled crates json healthy 42 201 7 false "lost" first.1 in
    (first.0 ≡ err (io "no space left"))
    × (second.0 ≡ ok (to_metadata (with_status false "lost" 41 200 record_7)))
    × (second.1.file ≡ some (record_7 ∷ []))
    × (open_store json (ok tt) second.1.file ≡ ok store_7)
unfolding require_text is_empty trim find
retry_answers_success_unwritten_example =
    retry_answers_success_unwritten crates json reads_back full_disk healthy 41 200 42 201 7 false
      "lost" store_7 record_7 (io "no space left")
      (replace 7 (with_status false "lost" 41 200 record_7) (record_7 ∷ [])) refl refl (λ e. cc)
      refl refl (record_7 ∷ [], refl, refl)
