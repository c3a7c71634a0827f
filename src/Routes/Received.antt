-- ===== src/Routes/Received.antt =====
-- The bytes that `read_release_multipart` of src/routes/mod.rs makes of the chunks of a field.
use mathlib.Core.Path.{subst}
use mathlib.Core.List.{append-nil, append_assoc}
use update_delivery_system.Prelude.{
  ◌≡◌, refl, sym, ap, ◌∙◌, String, Bool, true, false, Option, none, some, List, [], ◌∷◌, ◌++◌,
  length, ltb, arith, if◌then◌else◌,
}
use update_delivery_system.Prelude.Words.{saturating_add}
use update_delivery_system.Prelude.BTreeMap.Keys.{text_ord}
use update_delivery_system.Errors.{ok, err, payload_too_large}
use update_delivery_system.Errors.Outcomes.{>>=-succeeds}
use update_delivery_system.Models.{UploadPolicy}
use update_delivery_system.Routes.Multipart.{
  Bytes, Received, broken, got, Writing, write_chunk, read_chunks, read_metadata,
}

put_first : Bytes → Option Bytes → Option Bytes
put_first chunk none = none
put_first chunk (some rest) = some (chunk ++ rest)

-- The bytes of a field that arrives whole.
unfoldable pub received : List (Received Bytes) → Option Bytes
unfolding put_first
received [] = some []
received (broken e ∷ chunks) = none
received (got chunk ∷ chunks) = put_first chunk (received chunks)

received_got :
    (chunk rest : Bytes) (chunks : List (Received Bytes))
    → received chunks ≡ some rest
    → received (got chunk ∷ chunks) ≡ some (chunk ++ rest)
unfolding received put_first
received_got chunk rest chunks h = ap (put_first chunk) h

-- The bytes that the chunks add to those before.
abbrev pub Adds : List (Received Bytes) → Bytes → Bytes → Type 0
Adds chunks before after = (rest : Bytes) × (received chunks ≡ some rest) × (after ≡ before ++ rest)

Adds-got :
    (chunk : Bytes) (chunks : List (Received Bytes)) (before after : Bytes)
    → Adds chunks (before ++ chunk) after
    → Adds (got chunk ∷ chunks) before after
Adds-got chunk chunks before after (rest, h, e) =
    (chunk ++ rest, received_got chunk rest chunks h, e ∙ append_assoc before chunk rest)

write_chunk-content :
    (p : UploadPolicy) (name : String) (chunk : Bytes) (w v : Writing)
    → write_chunk p name chunk w ≡ ok v
    → (v.content ≡ w.content ++ chunk) × (v.hashed ≡ w.hashed ++ chunk)
unfolding write_chunk
write_chunk-content p name chunk w v h = ground arith

pub read_chunks-Adds :
    (p : UploadPolicy) (name : String) (chunks : List (Received Bytes)) (w w' : Writing)
    → read_chunks p name chunks w ≡ ok w'
    → Adds chunks w.content w'.content × Adds chunks w.hashed w'.hashed
unfolding read_chunks
read_chunks-Adds p name [] w w' h =
    let e : w ≡ w' = cc in
    (
      (
        [],
        unfold received in refl,
        ap (λ (x : Writing). x.content) (sym e) ∙ sym (append-nil w.content),
      ),
      (
        [],
        unfold received in refl,
        ap (λ (x : Writing). x.hashed) (sym e) ∙ sym (append-nil w.hashed),
      ),
    )
read_chunks-Adds p name (broken e ∷ chunks) w w' h = cc
read_chunks-Adds p name (got chunk ∷ chunks) w w' h =
    let (v, e, f) = >>=-succeeds (write_chunk p name chunk w) _ h in
    let (c, d) = write_chunk-content p name chunk w v e in
    let (a, b) = read_chunks-Adds p name chunks v w' f in
    (
      Adds-got chunk chunks w.content w'.content
          (subst (λ (x : Bytes). Adds chunks x w'.content) c a),
      Adds-got chunk chunks w.hashed w'.hashed (subst (λ (x : Bytes). Adds chunks x w'.hashed) d b),
    )

pub read_metadata-Adds :
    (p : UploadPolicy) (chunks : List (Received Bytes)) (bytes bytes' : Bytes)
    → read_metadata p chunks bytes ≡ ok bytes'
    → Adds chunks bytes bytes'
unfolding read_metadata
read_metadata-Adds p [] bytes bytes' h =
    let e : bytes ≡ bytes' = cc in ([], unfold received in refl, sym e ∙ sym (append-nil bytes))
read_metadata-Adds p (broken e ∷ chunks) bytes bytes' h = cc
read_metadata-Adds p (got chunk ∷ chunks) bytes bytes' h = Adds-got chunk chunks bytes bytes' (
    go (ltb p.max_metadata_bytes (saturating_add (length bytes) (length chunk))) h
      (read_metadata-Adds p chunks (bytes ++ chunk) bytes'))
  where
    go :
        (t : Bool)
        → (if t
            then err (payload_too_large "release metadata exceeds the configured limit")
            else read_metadata p chunks (bytes ++ chunk))
          ≡ ok bytes'
        → (read_metadata p chunks (bytes ++ chunk) ≡ ok bytes'
            → Adds chunks (bytes ++ chunk) bytes')
        → Adds chunks (bytes ++ chunk) bytes'
    go true g k = cc
    go false g k = k g
