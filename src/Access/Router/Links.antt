-- ===== src/Access/Router/Links.antt =====
-- The links to details open the detail that they name.
use text.Mathlib.TextLemmas.{cons-append}
use profit_decision_engine.Prelude.{
  String, Option, none, some, true, false, ◌==◌, ◌+++◌, ◌≡◌, refl, starts_with, includes, truthy,
  slice_from, eq_iff, Bool-cases, inl, inr, ap, ◌∙◌, ℕ, sym,
}
use profit_decision_engine.Prelude.TextLaws.{
  append-ne_of_prefix, starts_with-append, slice_from-append, size,
}
use profit_decision_engine.Access.Router.{suggestion_detail, batch_detail, segment_after, app}

-- What the pages rely on in `encodeURIComponent` and `decodeURIComponent`.
pub record UriCodec : Type 0 where
  pub encode : String → String
  pub decode : String → Option String
  pub decode-encode : (s : String) → decode (encode s) ≡ some s
  pub encode_slash : (s : String) → includes (encode s) "/" ≡ false
  pub encode_truthy : (s : String) → truthy s ≡ true → truthy (encode s) ≡ true

segment_after-append :
    (p s : String)
    → truthy s ≡ true
    → includes s "/" ≡ false
    → segment_after p (size p) (p +++ s) ≡ some s
segment_after-append p s h k =
    rw (starts_with-append p s) (rw (slice_from-append p s) (rw (h, k) refl))

segment_after-other :
    (p s q : String) (n : ℕ) → starts_with (p +++ s) q ≡ false → segment_after q n (p +++ s) ≡ none
segment_after-other p s q n h = rw h refl

batches-not-suggestions : (e : String) → starts_with ("/batches/" +++ e) "/suggestions/" ≡ false
batches-not-suggestions e =
    rw (cons-append "/" "batches/" e) (rw (cons-append "b" "atches/" e) refl)

batches-ne-new : (e : String) → (e == "new") ≡ false → ("/batches/" +++ e == "/batches/new") ≡ false
batches-ne-new e n = elim (Bool-cases ("/batches/" +++ e == "/batches/new")) [
  | inr h ↦ h
  | inl h ↦
      let same : "/batches/" +++ e ≡ "/batches/new" =
        (eq_iff ("/batches/" +++ e) "/batches/new").0 h in
      let tail : e ≡ "new" = sym (slice_from-append "/batches/" e) ∙ ap (slice_from 9) same in
      cc (n, (eq_iff e "new").1 tail)
]

module _ (uri : UriCodec) where
  open uri use {encode, decode, decode-encode, encode_slash, encode_truthy}

  -- The path of a link to a suggestion opens that suggestion.
  pub app-suggestion :
      (id : String)
      → truthy id ≡ true
      → app decode ("/suggestions/" +++ encode id) ≡ suggestion_detail id
  unfolding app
  app-suggestion id h =
      let p : String = "/suggestions/" in
      let e : String = encode id in
      rw
        (
          append-ne_of_prefix p e "/login" refl,
          append-ne_of_prefix p e "/auth/recovery" refl,
          append-ne_of_prefix p e "/batches" refl,
          append-ne_of_prefix p e "/batches/new" refl,
          append-ne_of_prefix p e "/workbench/operations" refl,
          append-ne_of_prefix p e "/workbench/supervisor" refl,
          append-ne_of_prefix p e "/actions" refl,
          append-ne_of_prefix p e "/history" refl,
        )
        (rw (segment_after-append p e (encode_truthy id h) (encode_slash id))
          (rw (decode-encode id) refl))

  -- The path of a link to a batch opens that batch, unless its identifier is encoded as `new`.
  pub app-batch :
      (id : String)
      → truthy id ≡ true
      → (encode id == "new") ≡ false
      → app decode ("/batches/" +++ encode id) ≡ batch_detail id
  unfolding app
  app-batch id h n =
      let p : String = "/batches/" in
      let e : String = encode id in
      rw
        (
          append-ne_of_prefix p e "/login" refl,
          append-ne_of_prefix p e "/auth/recovery" refl,
          append-ne_of_prefix p e "/batches" refl,
          batches-ne-new e n,
          append-ne_of_prefix p e "/workbench/operations" refl,
          append-ne_of_prefix p e "/workbench/supervisor" refl,
          append-ne_of_prefix p e "/actions" refl,
          append-ne_of_prefix p e "/history" refl,
        )
        (rw (segment_after-other p e "/suggestions/" 13 (batches-not-suggestions e)) (
          rw (segment_after-append p e (encode_truthy id h) (encode_slash id))
            (rw (decode-encode id) refl)))
