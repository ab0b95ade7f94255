-- ===== src/Simulator/Endpoints.antt =====
-- backend/downstream_sim/app.py: the five endpoints that workers call, from the request that the HTTP
-- client sends to the response that it gets. FastAPI checks the fields of a request by name, answers
-- 422 when they do not fit, and fills the fields of the response model that are missing with null.
use Prim.Native.Char.{code}
use Prim.Native.String.{◌++◌ as ◌++ₛ◌}
use workato_take_home.Prelude.{
  ℕ, zero, suc, String, Bool, true, false, ◌&&◌, not, Option, none, some, List, [], ◌∷◌, ◌++◌, ◌==◌,
  string_eq, if◌then◌else◌, get_or, eqb,
}
use workato_take_home.Store.Schema.{Time}
use workato_take_home.Worker.Downstream.{
  Json, null, container, string, Body, HttpResult, response, invalid_json, Request,
}
use workato_take_home.Simulator.Library.{Library}
use workato_take_home.Simulator.Config.{Positive, to_float}
use workato_take_home.Simulator.Delay.{StatusResponse, delayed_status_response}
use workato_take_home.Simulator.Phases.{
  restaurant_confirm_phase, restaurant_start_prep_phase, restaurant_ready_phase,
  courier_assign_phase, courier_delivery_phase,
}
use workato_take_home.Simulator.KillSwitch.{KillSwitches, switch_of}

-- What an endpoint returns: the fields of its response model, an HTTPException, or an exception.
pub data Endpoint : Type 0 where
  returns : List (String × Json) → Endpoint
  http_exception : ℕ → String → Endpoint
  raises : Endpoint

-- `name.replace("_", " ")`
pub spaced : String → String
spaced String.[] = String.[]
spaced (String.◌∷◌ c name) =
    let rest = spaced name in if eqb (code c) 95 then String.◌∷◌ " " rest else String.◌∷◌ c rest

-- `digest[:n]` of a text
unfoldable pub prefix : ℕ → String → String
prefix zero digest = String.[]
prefix (suc n) String.[] = String.[]
prefix (suc n) (String.◌∷◌ c digest) = String.◌∷◌ c (prefix n digest)

abbrev pub is_empty : String → Bool
is_empty String.[] = true
is_empty (String.◌∷◌ c s) = false

module _ (lib : Library) where
  abbrev pub optional_string : Option String → Json
  optional_string none = null
  optional_string (some s) = string s

  -- The response models; none is the encoder's exception.
  unfoldable pub status_fields : String → List (String × Json) → Option Positive → Endpoint
  status_fields status others none =
      returns (("status", string status) ∷ others ++ ("retry_after_seconds", null) ∷ [])
  status_fields status others (some retry_after) = elim (lib.encode (to_float retry_after)) [
    | none ↦ raises
    | some json ↦ returns (("status", string status) ∷ others ++ ("retry_after_seconds", json) ∷ [])
  ]

  -- The result of `_delayed_status_response` as an endpoint's.
  unfoldable pub respond : Option StatusResponse → Endpoint
  unfolding status_fields
  respond none = raises
  respond (some r) = status_fields r.status [] r.retry_after_seconds

  -- The assignment: the dictionary goes on to the response unless it says "assigned".
  unfoldable pub respond_assigned : String → Option StatusResponse → Endpoint
  unfolding status_fields prefix
  respond_assigned order_id none = raises
  respond_assigned order_id (some r) =
      if r.status == "assigned"
      then status_fields "assigned"
          (("courier_ref", string ("courier-" ++ₛ prefix 12 (lib.md5 order_id))) ∷ []) none
      else status_fields r.status (("courier_ref", null) ∷ []) r.retry_after_seconds

  module _ (switches : KillSwitches) (now : Time) where
    -- `_raise_if_service_killed`, before the rest of an endpoint.
    unfoldable pub raise_if_service_killed : String → Endpoint → Endpoint
    unfolding switch_of spaced
    raise_if_service_killed name rest =
        if get_or (switch_of name switches) false
        then http_exception 503 (spaced name ++ₛ " simulator is killed")
        else rest

    unfoldable pub confirm_restaurant_order : String → Time → Endpoint
    unfolding raise_if_service_killed respond delayed_status_response
    confirm_restaurant_order order_id placed_at =
        raise_if_service_killed "restaurant_confirm"
          (respond (delayed_status_response lib restaurant_confirm_phase order_id placed_at now))

    unfoldable pub start_restaurant_prep : String → Time → Endpoint
    unfolding raise_if_service_killed respond delayed_status_response
    start_restaurant_prep order_id confirmed_at = raise_if_service_killed "restaurant_start_prep" (
        respond (delayed_status_response lib restaurant_start_prep_phase order_id confirmed_at now))

    unfoldable pub check_restaurant_ready : String → Time → Endpoint
    unfolding raise_if_service_killed respond delayed_status_response
    check_restaurant_ready order_id prep_started_at =
        raise_if_service_killed "restaurant_check_ready" (
          respond (delayed_status_response lib restaurant_ready_phase order_id prep_started_at now))

    unfoldable pub assign_courier : String → Time → Endpoint
    unfolding raise_if_service_killed respond_assigned delayed_status_response
    assign_courier order_id ready_at = raise_if_service_killed "courier_assign" (
        respond_assigned order_id
          (delayed_status_response lib courier_assign_phase order_id ready_at now))

    unfoldable pub check_courier_delivery : String → Time → Endpoint
    unfolding raise_if_service_killed respond delayed_status_response
    check_courier_delivery order_id dispatched_at =
        raise_if_service_killed "courier_check_delivery"
          (respond (delayed_status_response lib courier_delivery_phase order_id dispatched_at now))

    -- What the client gets for what an endpoint does.
    abbrev body_of : List (String × Json) → Body
    body_of fields = record { fields = fields; repr = lib.repr fields }

    unfoldable pub sent : Endpoint → HttpResult
    sent (returns fields) = response 200 (body_of fields)
    sent (http_exception code detail) = response code (body_of (("detail", string detail) ∷ []))
    sent raises = invalid_json 500 lib.decode_error

    -- The fields of a request model, with `min_length=1` on both texts.
    unfoldable pub validated : String → String → Request → Endpoint → HttpResult
    unfolding sent
    validated ref_field started_at_field request endpoint =
        if request.ref_field == ref_field
          && request.started_at_field == started_at_field
          && not (is_empty (lib.str request.order_id))
          && not (is_empty request.ref)
        then sent endpoint
        else response 422 (body_of (("detail", container) ∷ []))

    -- The routes of the application that workers call.
    unfoldable pub serve : Request → HttpResult
    unfolding validated confirm_restaurant_order start_restaurant_prep check_restaurant_ready
        assign_courier check_courier_delivery
    serve request =
        let order_id = lib.str request.order_id in
        if request.path == "/restaurant/confirm"
        then validated "restaurant_ref" "placed_at" request
            (confirm_restaurant_order order_id request.started_at)
        else if request.path == "/restaurant/start-prep"
        then validated "restaurant_ref" "confirmed_at" request
            (start_restaurant_prep order_id request.started_at)
        else if request.path == "/restaurant/check-ready"
        then validated "restaurant_ref" "prep_started_at" request
            (check_restaurant_ready order_id request.started_at)
        else if request.path == "/courier/assign"
        then validated "restaurant_ref" "ready_at" request
            (assign_courier order_id request.started_at)
        else if request.path == "/courier/check-delivery"
        then validated "courier_ref" "dispatched_at" request
            (check_courier_delivery order_id request.started_at)
        else response 404 (body_of (("detail", string "Not Found") ∷ []))
