-- ===== src/Api/Calls.antt =====
-- The requests of web/src/api.ts meet the endpoints of web/src/generated/api.ts.
use mathlib.Core.List.{Memᴰ}
use profit_decision_engine.Prelude.{
  String, ℕ, List, [], ◌∷◌, ◌++◌, Option, none, some, Bool, true, ◌≡◌, refl, elem,
}
use profit_decision_engine.Api.{
  Request, Track, business, inventory, ReviewDecision, approve, reject, ClearanceDecision,
  CreateBatchInput, create_batch, confirmed, returned, ResultSubmission, review_suggestion,
  execute_action, record_action_result, override_suggestion, terminate_suggestion,
  submit_clearance_completion, review_clearance_completion, send_oa_notification,
  retry_oa_notification, retry_ai_explanation, nullable_number as figure_json,
}
use profit_decision_engine.Api.Contract.{
  Endpoint, Meets, Kind, has_kind, suggestion_endpoints, action_endpoints, business_actions,
  inventory_actions, business_units, writing_endpoints, upload_endpoint,
}

-- The commands of the client with their arguments.
pub data Call : Type 0 where
  review : String → ReviewDecision → String → ℕ → Call
  execute : String → Track → ℕ → String → Call
  result : String → ResultSubmission → Call
  override : String → String → Option String → String → ℕ → Call
  terminate : String → String → ℕ → Call
  complete : String → String → String → ℕ → Call
  decide : String → ClearanceDecision → String → ℕ → Call
  send : String → String → String → Call
  resend : String → String → Call
  explain : String → Call
  upload : CreateBatchInput → Call

module _ (encode : String → String) (key : String) where
  abbrev pub request_of : Call → Request
  request_of (review id decision note version) =
      review_suggestion encode key id decision note version
  request_of (execute id track version note) = execute_action encode key id track version note
  request_of (result id input) = record_action_result encode key id input
  request_of (override id action inventory_action reason version) =
      override_suggestion encode key id action inventory_action reason version
  request_of (terminate id reason version) = terminate_suggestion encode key id reason version
  request_of (complete id instant note version) =
      submit_clearance_completion encode key id instant note version
  request_of (decide id decision reason version) =
      review_clearance_completion encode key id decision reason version
  request_of (send id recipient feedback) = send_oa_notification encode id recipient feedback
  request_of (resend id notification) = retry_oa_notification encode key id notification
  request_of (explain id) = retry_ai_explanation encode key id
  request_of (upload input) = create_batch input

  -- The values of the path parameters.
  abbrev pub values_of : Call → List String
  values_of (review id decision note version) = encode id ∷ []
  values_of (execute id track version note) = encode id ∷ []
  values_of (result id input) = encode id ∷ []
  values_of (override id action inventory_action reason version) = encode id ∷ []
  values_of (terminate id reason version) = encode id ∷ []
  values_of (complete id instant note version) = encode id ∷ []
  values_of (decide id decision reason version) = encode id ∷ []
  values_of (send id recipient feedback) = encode id ∷ []
  values_of (resend id notification) = encode id ∷ encode notification ∷ []
  values_of (explain id) = encode id ∷ []
  values_of (upload input) = []

  abbrev optional_in : List String → Option String → Bool
  optional_in options none = true
  optional_in options (some value) = elem value options

  -- An override names actions that the endpoint knows, and an upload the one business unit; the types of the other arguments suffice.
  abbrev pub IsKnown : Call → Type 0
  IsKnown (override id action inventory_action reason version) =
      (elem action business_actions ≡ true)
      × (optional_in inventory_actions inventory_action ≡ true)
  IsKnown (upload input) = elem input.business_unit business_units ≡ true
  IsKnown _ = Unit

  pub record IsDeclared (call : Call) : Type 0 where
    pub endpoint : Endpoint
    pub listed : Memᴰ endpoint writing_endpoints
    pub meets : Meets endpoint (values_of call) (request_of call)

  IsDeclared-at :
      (call : Call) (e : Endpoint)
      → Memᴰ e (suggestion_endpoints ++ action_endpoints)
      → Meets e (values_of call) (request_of call)
      → IsDeclared call
  IsDeclared-at call e m h = record { endpoint = e; listed = Memᴰ.tail m; meets = h }

  figure_kind : (o : Option String) → has_kind Kind.nullable_number (figure_json o) ≡ true
  figure_kind none = refl
  figure_kind (some t) = refl

  -- Every command is sent to a declared endpoint, with its method, its path for the identifiers of
  -- the call, and a body with exactly the declared fields, each of the declared kind, if an override
  -- names known actions and an upload the known business unit.
  pub request_of-IsDeclared : (call : Call) → IsKnown call → IsDeclared call
  request_of-IsDeclared (upload input) k = record {
    endpoint = upload_endpoint;
    listed = Memᴰ.head refl;
    meets = record { method = refl; path = refl; body = (rw k refl, refl) };
  }
  request_of-IsDeclared (review id approve note version) k =
      IsDeclared-at _ _ (Memᴰ.head refl)
        (record { method = refl; path = refl; body = (refl, refl) })
  request_of-IsDeclared (review id reject note version) k =
      IsDeclared-at _ _ (Memᴰ.head refl)
        (record { method = refl; path = refl; body = (refl, refl) })
  request_of-IsDeclared (override id a none reason version) k =
      IsDeclared-at _ _ (Memᴰ.tail (Memᴰ.head refl))
        (record { method = refl; path = refl; body = (rw k.0 refl, refl) })
  request_of-IsDeclared (override id a (some b) reason version) k =
      IsDeclared-at _ _ (Memᴰ.tail (Memᴰ.head refl))
        (record { method = refl; path = refl; body = (rw (k.0, k.1) refl, refl) })
  request_of-IsDeclared (terminate id reason version) k =
      IsDeclared-at _ _ (Memᴰ.tail (Memᴰ.tail (Memᴰ.head refl)))
        (record { method = refl; path = refl; body = (refl, refl) })
  request_of-IsDeclared (explain id) k =
      IsDeclared-at _ _ (Memᴰ.tail (Memᴰ.tail (Memᴰ.tail (Memᴰ.head refl))))
        (record { method = refl; path = refl; body = (refl, refl) })
  request_of-IsDeclared (execute id business version note) k =
      IsDeclared-at _ _ (Memᴰ.tail (Memᴰ.tail (Memᴰ.tail (Memᴰ.tail (Memᴰ.head refl)))))
        (record { method = refl; path = refl; body = (refl, refl) })
  request_of-IsDeclared (execute id inventory version note) k =
      IsDeclared-at _ _ (Memᴰ.tail (Memᴰ.tail (Memᴰ.tail (Memᴰ.tail (Memᴰ.head refl)))))
        (record { method = refl; path = refl; body = (refl, refl) })
  request_of-IsDeclared (result id input) k =
      IsDeclared-at _ _ (Memᴰ.tail (Memᴰ.tail (Memᴰ.tail (Memᴰ.tail (Memᴰ.tail (Memᴰ.head refl))))))
        (record {
          method = refl;
          path = refl;
          body = (
            rw
                (
                  figure_kind input.sales_value,
                  figure_kind input.profit_value,
                  figure_kind input.inventory_value,
                )
                refl,
            refl,
          );
        })
  request_of-IsDeclared (complete id instant note version) k =
      IsDeclared-at _ _
        (Memᴰ.tail (Memᴰ.tail (Memᴰ.tail (Memᴰ.tail (Memᴰ.tail (Memᴰ.tail (Memᴰ.head refl)))))))
        (record { method = refl; path = refl; body = (refl, refl) })
  request_of-IsDeclared (decide id confirmed reason version) k =
      IsDeclared-at _ _
        (Memᴰ.tail
          (Memᴰ.tail (Memᴰ.tail (Memᴰ.tail (Memᴰ.tail (Memᴰ.tail (Memᴰ.tail (Memᴰ.head refl))))))))
        (record { method = refl; path = refl; body = (refl, refl) })
  request_of-IsDeclared (decide id returned reason version) k =
      IsDeclared-at _ _
        (Memᴰ.tail (
          Memᴰ.tail (
            Memᴰ.tail
              (Memᴰ.tail (Memᴰ.tail (Memᴰ.tail (Memᴰ.tail (Memᴰ.tail (Memᴰ.head refl)))))))))
        (record { method = refl; path = refl; body = (refl, refl) })
  request_of-IsDeclared (send id recipient feedback) k =
      IsDeclared-at _ _
        (Memᴰ.tail (
          Memᴰ.tail (
            Memᴰ.tail (
              Memᴰ.tail
                (Memᴰ.tail (Memᴰ.tail (Memᴰ.tail (Memᴰ.tail (Memᴰ.tail (Memᴰ.head refl))))))))))
        (record { method = refl; path = refl; body = (refl, refl) })
  request_of-IsDeclared (resend id notification) k =
      IsDeclared-at _ _
        (Memᴰ.tail (
          Memᴰ.tail (
            Memᴰ.tail (
              Memᴰ.tail (
                Memᴰ.tail
                  (Memᴰ.tail (Memᴰ.tail (Memᴰ.tail (Memᴰ.tail (Memᴰ.tail (Memᴰ.head refl)))))))))))
        (record { method = refl; path = refl; body = (refl, refl) })
