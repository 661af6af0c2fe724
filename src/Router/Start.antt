-- ===== src/Router/Start.antt =====
-- `NewRouter` and `Close` of go-backend/internal/engine/router.go, with `New` of client.go. A
-- connection is a number that is new when it is opened, with its address; the world keeps those
-- that are open. Whether gRPC opens or closes a connection without an error is its answer.
-- `strings.Split` and `strings.TrimSpace` are given.
use prediction_market.Base.{
  ℕ, suc, String, Bool, false, List, [], ◌∷◌, ◌++◌, Option, none, some, length, ltb, nat_eq, ◌==◌,
  ◌||◌, eq_string, if◌then◌else◌,
}
use prediction_market.Ledger.{Error}
use prediction_market.Result.{Result, ok, err}

pub record Connection : Type 0 where
  pub number : ℕ
  pub address : String

pub record Network : Type 0 where
  pub opened : List Connection
  pub next_number : ℕ

-- The answers of gRPC: the error of opening an address, and of closing a connection
pub record Grpc : Type 0 where
  pub open_error : String → Option Error
  pub close_error : Connection → Option Error

abbrev pub drop_connection : ℕ → List Connection → List Connection
drop_connection n [] = []
drop_connection n (c ∷ cs) =
    let rest = drop_connection n cs in if nat_eq c.number n then rest else c ∷ rest

abbrev first_error : Option Error → Option Error → Option Error
first_error none e = e
first_error (some e) _ = some e

abbrev pub open_connection : String → Network → Connection × Network
open_connection address w =
    let c : Connection = record { number = w.next_number; address = address } in
    (c, record { opened = c ∷ w.opened; next_number = suc w.next_number })

abbrev pub seen : String → List Connection → Bool
seen address [] = false
seen address (c ∷ cs) = c.address == address || seen address cs

module _ (grpc : Grpc) where
  -- `Client.Close`
  unfoldable pub close_client : Connection → Network → Option Error × Network
  close_client c w = (grpc.close_error c, record w { opened = drop_connection c.number w.opened })

  -- `Router.Close`: every client is closed, and the first error kept.
  unfoldable pub close_router : List Connection → Network → Option Error × Network
  unfolding close_client
  close_router [] w = (none, w)
  close_router (c ∷ cs) w =
      let (e, w') = close_client c w in
      let (e', w'') = close_router cs w' in (first_error e e', w'')

  -- `New`
  unfoldable pub new_client : String → Network → Result Connection × Network
  new_client address w =
      if address == ""
      then (err (Error.external "matching engine address is required"), w)
      else elim (grpc.open_error address) [
        | some e ↦ (err e, w)
        | none ↦ let (c, w') = open_connection address w in (ok c, w')
      ]

  abbrev pub give_up : Error → List Connection → Network → Result (List Connection) × Network
  give_up e clients w = let (_, w') = close_router clients w in (err e, w')

  -- The loop over the addresses, with the clients that are open: `seen` are their addresses.
  unfoldable pub open_clients :
      (trim : String → String)
      → List String
      → List Connection
      → Network
      → Result (List Connection) × Network
  unfolding new_client close_router
  open_clients trim [] clients w = (ok clients, w)
  open_clients trim (part ∷ parts) clients w =
      let address = trim part in
      if address == "" || seen address clients
      then give_up (Error.external "engine addresses must be nonempty and distinct") clients w
      else (let (r, w') = new_client address w in
          elim r [
            | err e ↦ give_up e clients w'
            | ok c ↦ open_clients trim parts (clients ++ c ∷ []) w'
          ])

  -- `NewRouter`
  unfoldable pub new_router :
      (split : String → List String)
      → (trim : String → String) → String
      → Network
      → Result (List Connection) × Network
  unfolding open_clients
  new_router split trim addresses w =
      let parts = split addresses in
      if ltb 2 (length parts)
      then (err (Error.external "support one or two engine addresses"), w)
      else open_clients trim parts [] w
