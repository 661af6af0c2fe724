-- ===== src/Router/Opened.antt =====
-- Which connections a router holds: go-backend/internal/engine/router.go.
use prediction_market.Base.{
  ℕ, suc, ◌≤◌, ◌<◌, ◌≡◌, String, true, false, List, [], ◌∷◌, ◌++◌, length, ltb, ◌==◌, ◌||◌,
  eq_string, if◌then◌else◌, map, refl, arith, inl, inr, Bool-cases, Option-cases, ◌⊎◌, sym,
  or_false, ◌≢◌, subst,
}
use prediction_market.Ledger.{Error}
use prediction_market.Result.{Result, ok, err}
use prediction_market.Router.Start.{
  Connection, Network, Grpc, drop_connection, close_router, new_client, seen, open_clients,
  new_router, open_connection, give_up,
}

-- Every number is below n.
abbrev pub AllBelow : ℕ → List Connection → Type 0
AllBelow n [] = Unit
AllBelow n (c ∷ cs) = (c.number < n) × AllBelow n cs

drop_connection-fresh : (n : ℕ) (cs : List Connection) → AllBelow n cs → drop_connection n cs ≡ cs
drop_connection-fresh n [] h = refl
drop_connection-fresh n (c ∷ cs) h = ground (arith, drop_connection-fresh n cs h.1)

-- The connections that are open when those of `clients` were opened one by one
abbrev pub opened_on : List Connection → List Connection → List Connection
opened_on [] base = base
opened_on (c ∷ cs) base = opened_on cs (c ∷ base)

abbrev NotAmong : String → List Connection → Type 0
NotAmong a [] = Unit
NotAmong a (c ∷ cs) = (a ≢ c.address) × NotAmong a cs

-- No address is empty or stands twice.
abbrev pub AreDistinct : List Connection → Type 0
AreDistinct [] = Unit
AreDistinct (c ∷ cs) = ((c.address == "") ≡ false) × NotAmong c.address cs × AreDistinct cs

-- What NewRouter leaves: the connections to the addresses, or, with an error, none of its own
abbrev pub IsOpened :
    (trim : String → String) → List String → Network → Result (List Connection) × Network → Type 0
IsOpened trim parts w (err e, w') = w'.opened ≡ w.opened
IsOpened trim parts w (ok cs, w') =
    (w'.opened ≡ opened_on cs w.opened)
    × (map (λ c. c.address) cs ≡ map trim parts)
    × (length cs ≤ 2)
    × AreDistinct cs

module _ (grpc : Grpc) where
  new_client-cases :
      (address : String) (w : Network)
      → (address == "") ≡ false
      → ((e : Error) × (new_client grpc address w ≡ (err e, w)))
        ⊎ (new_client grpc address w
            ≡ (ok (open_connection address w).0, (open_connection address w).1))
  unfolding new_client
  new_client-cases address w named = elim (Option-cases (grpc.open_error address)) [
    | inl none_ ↦ inr (rw (named, none_) refl)
    | inr (e, failed) ↦ inl (e, rw (named, failed) refl)
  ]

  abbrev Continued :
      (trim : String → String)
      → List String
      → List Connection
      → (Result (List Connection) × Network → Type 0)
      → Result Connection × Network
      → Type 0
  Continued trim parts clients P x = P (elim x.0 [
    | err e ↦ give_up grpc e clients x.1
    | ok c ↦ open_clients grpc trim parts (clients ++ c ∷ []) x.1
  ])

  -- One address
  open_clients-cons :
      (trim : String → String) (part : String) (parts : List String) (clients : List Connection)
      (w : Network) (P : Result (List Connection) × Network → Type 0)
      → ((e : Error) → P (give_up grpc e clients w))
      → ((trim part == "") ≡ false
          → seen (trim part) clients ≡ false
          → P (
              open_clients grpc trim parts
                (clients ++ (open_connection (trim part) w).0 ∷ [])
                (open_connection (trim part) w).1))
      → P (open_clients grpc trim (part ∷ parts) clients w)
  unfolding open_clients
  open_clients-cons trim part parts clients w P failed opened =
      elim (Bool-cases (trim part == "" || seen (trim part) clients)) [
        | inl bad ↦ rw bad (failed _)
        | inr good ↦
            let (named, unseen) = or_false (trim part == "") (seen (trim part) clients) good in
            rw good (elim (new_client-cases (trim part) w named) [
              | inl (e, r) ↦ subst (Continued trim parts clients P) (sym r) (failed e)
              | inr r ↦ subst (Continued trim parts clients P) (sym r) (opened named unseen)
            ])
      ]

  other : (a b : String) → (a == b || false) ≡ false → a ≢ b
  other a b h e = cc ((or_false (a == b) false h).0, (eq_string.equals_iff a b).1 e)

  -- The clients that are open when an address fails are closed again.
  give_up-none : (e : Error) (w : Network) → (give_up grpc e [] w).1.opened ≡ w.opened
  unfolding close_router
  give_up-none e w = refl

  give_up-one :
      (e : Error) (address : String) (w : Network)
      → AllBelow w.next_number w.opened
      → (give_up grpc e ((open_connection address w).0 ∷ []) (open_connection address w).1).1.opened
        ≡ w.opened
  unfolding close_router
  give_up-one e address w fresh = ground (arith, drop_connection-fresh w.next_number w.opened fresh)

  open_two :
      (trim : String → String) (a b : String) (w : Network)
      → AllBelow w.next_number w.opened
      → IsOpened trim (a ∷ b ∷ []) w (open_clients grpc trim (a ∷ b ∷ []) [] w)
  unfolding open_clients
  open_two trim a b w fresh =
      open_clients-cons trim a (b ∷ []) [] w (IsOpened trim (a ∷ b ∷ []) w) (λ e. give_up-none e w)
        (λ named _.
          let v = (open_connection (trim a) w).1 in
          let c = (open_connection (trim a) w).0 in
          open_clients-cons trim b [] (c ∷ []) v (IsOpened trim (a ∷ b ∷ []) w)
            (λ e. give_up-one e (trim a) w fresh)
            (λ named' unseen. (
              refl,
              refl,
              omega arith,
              (named, (other (trim a) (trim b) unseen, tt), (named', tt, tt)),
            )))

  open_one :
      (trim : String → String) (a : String) (w : Network)
      → IsOpened trim (a ∷ []) w (open_clients grpc trim (a ∷ []) [] w)
  unfolding open_clients
  open_one trim a w =
      open_clients-cons trim a [] [] w (IsOpened trim (a ∷ []) w) (λ e. give_up-none e w)
        (λ named _. (refl, refl, omega arith, (named, tt, tt)))

  three : (n : ℕ) → ltb 2 (suc (suc (suc n))) ≡ true
  three n = ground arith

  -- If the numbers of the open connections are below the next, NewRouter leaves one connection or two,
  -- one to each of the addresses, which are not empty and not the same, or it gives an error, and then
  -- it has closed every connection that it had opened; if splitting gives a part at least.
  pub new_router-IsOpened :
      (split : String → List String) (trim : String → String) (addresses : String) (w : Network)
      → AllBelow w.next_number w.opened
      → 0 < length (split addresses)
      → IsOpened trim (split addresses) w (new_router grpc split trim addresses w)
  unfolding new_router
  new_router-IsOpened split trim addresses w fresh some_part = opened_of (split addresses) some_part
    where
      opened_of :
          (parts : List String)
          → 0 < length parts
          → IsOpened trim parts w (
              if ltb 2 (length parts)
              then (err (Error.external "support one or two engine addresses"), w)
              else open_clients grpc trim parts [] w)
      opened_of [] h = elim h [ ]
      opened_of (a ∷ []) h = open_one trim a w
      opened_of (a ∷ b ∷ []) h = open_two trim a b w fresh
      opened_of (a ∷ b ∷ c ∷ rest) h = rw (three (length rest)) refl
