-- ===== src/Supplement/Examples.antt =====
-- Tests of the supplementary frontend, and its theorems on concrete values.
use profit_decision_engine.Prelude.{
  [], map, none, some, true, false, ◌≡◌, ◌↔◌, refl, elem, lookup, truthy,
}
use profit_decision_engine.Json.{str, obj, field, end}
use profit_decision_engine.Supplement.Data.{procurement, AuthStatus}
use profit_decision_engine.Supplement.Client.{
  RequestInit, headers_of, load_auth, headers_of-load_auth, read_response, thrown,
}
use profit_decision_engine.Supplement.Shell.{
  selected, menu_items, is_procurement, selected-menu_items,
}
use profit_decision_engine.Supplement.StatusTag.{status_tag}

abbrev signed_in : AuthStatus
signed_in = record {
  authenticated = true;
  dingtalk_ready = none;
  support_guidance = none;
  actor_ref = some "u1";
  actor_name = some "A";
  role = some procurement;
  role_label = none;
  csrf_token = some "t9";
}

abbrev posting : RequestInit
posting = record { method = some "POST"; headers = []; is_form = false }

headers_of-load_auth_example :
    (signed_in.csrf_token ≡ some "t9"
      → truthy "t9" ≡ true
      → lookup "X-CSRF-Token" (headers_of (load_auth signed_in "old") posting) ≡ some "t9")
    × (signed_in.csrf_token ≡ none
        → lookup "X-CSRF-Token" (headers_of (load_auth signed_in "old") posting)
          ≡ lookup "X-CSRF-Token" posting.headers)
headers_of-load_auth_example =
    headers_of-load_auth signed_in "old" "t9" "POST" posting refl refl refl

selected-menu_items_case :
    (elem
        (selected "/batches/b" (some procurement))
        (map (λ item. item.0) (menu_items (some procurement)))
      ≡ true)
    × ((elem "/batches" (map (λ item. item.0) (menu_items (some procurement))) ≡ true)
        ↔ (is_procurement (some procurement) ≡ false))
selected-menu_items_case = selected-menu_items "/batches/b" (some procurement)

selected_test : selected "/batches/b" (some procurement) ≡ "/workspace"
unfolding selected
selected_test = refl

error_test :
    read_response (record {
      status = 409;
      is_ok = false;
      body = some (obj (field "detail" (obj (field "code" (str "VERSION") end)) end));
    })
    ≡ thrown (record { status = 409; code = "VERSION"; message = "请求失败，请稍后重试。" })
unfolding read_response
error_test = refl

status_test : status_tag "replenish" ≡ ("cyan", "补货")
unfolding status_tag
status_test = refl
