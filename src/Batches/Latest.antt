-- ===== src/Batches/Latest.antt =====
-- `latestReadyBatch` picks a ready batch whose key no ready batch exceeds.
use mathlib.Core.List.{Memᴰ}
use profit_decision_engine.Prelude.{
  List, [], ◌∷◌, none, some, true, false, text_lt, filter, All, ◌≡◌, refl, ◌⊎◌, inl, inr, arith,
  Bool-cases, ◌↔◌, sym, Memᴰ-filter, mem-filter_of, All-mem, ◌≢◌,
}
use profit_decision_engine.Prelude.TextOrder.{
  text_lt_irrefl, text_lt_total, not-text_lt_trans, text_lt_asymm,
}
use profit_decision_engine.Batches.{
  BatchSummary, is_ready, batch_key, later_of, latest_from, latest_ready_batch,
}

-- The key of `b` is not below the key of `c`.
abbrev pub NotBefore : BatchSummary → BatchSummary → Type 0
NotBefore b c = text_lt (batch_key b) (batch_key c) ≡ false

-- What a reduction that started from a batch ends with.
record Reduced (a : BatchSummary) (bs : List BatchSummary) (r : BatchSummary) : Type 0 where
  start : NotBefore r a
  others : All (NotBefore r) bs
  listed : (r ≡ a) ⊎ Memᴰ r bs

Reduced-keep :
    (a b r : BatchSummary) (bs : List BatchSummary)
    → NotBefore a b
    → Reduced a bs r
    → Reduced a (b ∷ bs) r
Reduced-keep a b r bs h d = record {
  start = d.start;
  others = (not-text_lt_trans (batch_key r) (batch_key a) (batch_key b) d.start h, d.others);
  listed = elim d.listed [ inl e ↦ inl e | inr m ↦ inr (Memᴰ.tail m) ];
}

Reduced-replace :
    (a b r : BatchSummary) (bs : List BatchSummary)
    → text_lt (batch_key a) (batch_key b) ≡ true
    → Reduced b bs r
    → Reduced a (b ∷ bs) r
Reduced-replace a b r bs h d = record {
  start =
      not-text_lt_trans (batch_key r) (batch_key b) (batch_key a) d.start
        (text_lt_asymm (batch_key a) (batch_key b) h);
  others = (d.start, d.others);
  listed = elim d.listed [ inl e ↦ inr (Memᴰ.head e) | inr m ↦ inr (Memᴰ.tail m) ];
}

latest_from-Reduced :
    (a r : BatchSummary) (bs : List BatchSummary)
    → latest_from (some a) bs ≡ some r
    → Reduced a bs r
unfolding latest_from later_of
latest_from-Reduced a r [] e =
    let s : a ≡ r = cc in
    record { start = rw s (text_lt_irrefl (batch_key r)); others = tt; listed = inl (sym s) }
latest_from-Reduced a r (b ∷ bs) e = elim (Bool-cases (text_lt (batch_key a) (batch_key b))) [
  | inl h ↦ Reduced-replace a b r bs h (latest_from-Reduced b r bs (rw h at e))
  | inr h ↦ Reduced-keep a b r bs h (latest_from-Reduced a r bs (rw h at e))
]

latest_from-some : (a : BatchSummary) (bs : List BatchSummary) → latest_from (some a) bs ≢ none
unfolding latest_from later_of
latest_from-some a [] = cc
latest_from-some a (b ∷ bs) = ground (arith, latest_from-some a bs, latest_from-some b bs)

-- The batch is listed, it is ready, and no ready batch of the list has a greater key.
pub record IsNewest (batches : List BatchSummary) (b : BatchSummary) : Type 0 where
  pub listed : Memᴰ b batches
  pub ready : is_ready b.status ≡ true
  pub newest : (c : BatchSummary) → Memᴰ c batches → is_ready c.status ≡ true → NotBefore b c

latest_from-newest :
    (ready : List BatchSummary) (b : BatchSummary)
    → latest_from none ready ≡ some b
    → Memᴰ b ready × All (NotBefore b) ready
unfolding latest_from later_of
latest_from-newest [] b e = cc
latest_from-newest (a ∷ rest) b e =
    let d = latest_from-Reduced a b rest e in
    (elim d.listed [ inl q ↦ Memᴰ.head q | inr m ↦ Memᴰ.tail m ], (d.start, d.others))

none_ready :
    (bs : List BatchSummary)
    → latest_from none (filter (λ b. is_ready b.status) bs) ≡ none
    → All (λ b. is_ready b.status ≡ false) bs
unfolding latest_from later_of
none_ready [] e = tt
none_ready (b ∷ bs) e = elim (Bool-cases (is_ready b.status)) [
  | inl h ↦ absurd (latest_from-some b (filter (λ x. is_ready x.status) bs) (rw h at e))
  | inr h ↦ (h, none_ready bs (rw h at e))
]

none_listed :
    (bs : List BatchSummary)
    → All (λ b. is_ready b.status ≡ false) bs
    → latest_from none (filter (λ b. is_ready b.status) bs) ≡ none
unfolding latest_from
none_listed [] h = refl
none_listed (b ∷ bs) h = rw h.0 (none_listed bs h.1)

-- What `latestReadyBatch` returns is a ready batch of the list, and no ready batch of the list has
-- a greater key.
pub latest_ready_batch-IsNewest :
    (batches : List BatchSummary) (b : BatchSummary)
    → latest_ready_batch batches ≡ some b
    → IsNewest batches b
unfolding latest_ready_batch
latest_ready_batch-IsNewest batches b e =
    let (m, a) = latest_from-newest _ b e in
    let (listed, h) = Memᴰ-filter (λ b. is_ready b.status) b batches m in
    record {
      listed = listed;
      ready = h;
      newest =
          λ c n k. All-mem (NotBefore b) _ a (mem-filter_of (λ b. is_ready b.status) c batches n k);
    }

-- It returns nothing exactly when no batch of the list is ready.
pub latest_ready_batch-eq-none_iff :
    (batches : List BatchSummary)
    → (latest_ready_batch batches ≡ none) ↔ All (λ b. is_ready b.status ≡ false) batches
unfolding latest_ready_batch
latest_ready_batch-eq-none_iff batches = (λ e. none_ready batches e, λ h. none_listed batches h)

-- The key of the chosen batch does not depend on the order of the list, nor on repetitions.
pub latest_ready_batch_order :
    (xs ys : List BatchSummary) (a b : BatchSummary)
    → ((c : BatchSummary) → Memᴰ c xs → Memᴰ c ys)
    → ((c : BatchSummary) → Memᴰ c ys → Memᴰ c xs)
    → latest_ready_batch xs ≡ some a
    → latest_ready_batch ys ≡ some b
    → batch_key a ≡ batch_key b
latest_ready_batch_order xs ys a b to from e f =
    let m = latest_ready_batch-IsNewest xs a e in
    let n = latest_ready_batch-IsNewest ys b f in
    text_lt_total (batch_key a) (batch_key b) (m.newest b (from b n.listed) n.ready)
      (n.newest a (to a m.listed) m.ready)
