-- ===== src/Auth/Tokens.antt =====
-- Which tokens go-backend/internal/auth/service.go gives and takes.
use Prim.Native.String.{◌++◌}
use text.Mathlib.TextLemmas.{append_assoc}
use prediction_market.Base.{
  ◌≡◌, refl, ap, arith, String, Bool, true, false, not, ◌||◌, Option, none, some, List, [], ◌∷◌,
  equals_refl, subst, or_false, not-false, ◌==◌, eq_string, if◌then◌else◌, ◌↔◌,
}
use prediction_market.Int.{ℤ, add64, leb_ℤ}
use prediction_market.Ledger.{Error}
use prediction_market.Result.{Result, ok, err, ◌>>=◌}
use prediction_market.Auth.{
  Claims, Library, AuthService, issuer_name, unsigned, signed, sign, read_claims, read_payload,
  signature_holds, parse_parts, parse, bearer, authenticate,
}
use prediction_market.Auth.Text.{
  split_dots, has_dot, split_dots-append, split_dots-single, after_prefix-append,
}

-- What base64 without padding and the JSON of claims are relied on for.
pub record IsStandard {W : Type 0} (lib : Library W) : Type 0 where
  pub decode-encode : (s : String) → lib.decode (lib.encode s) ≡ some s
  pub encode_dots : (s : String) → has_dot (lib.encode s) ≡ false
  pub unmarshal-marshal :
      (c : Claims) (t : String) → lib.marshal c ≡ ok t → lib.unmarshal t ≡ some c

abbrev pub claims_at : String → ℤ → Claims
claims_at id expiry = record { subject = id; issuer = issuer_name; expiry = expiry }

module _ {W A : Type 0} where
  err_is_not-ok : {e : Error} {a : A} {w v : W} → Path (Result A × W) (err e, w) (ok a, v) → ⊥
  err_is_not-ok h = cc

  ok-injective : {a b : A} {w v : W} → Path (Result A × W) (ok a, w) (ok b, v) → a ≡ b
  ok-injective h = cc

  -- After a check that does not return an error
  pub past_error :
      (b : Bool) (e : Error) (w : W) {n : Result A × W} {a : A} {v : W}
      → (if b then (err e, w) else n) ≡ (ok a, v)
      → (b ≡ false) × (n ≡ (ok a, v))
  past_error true e w h = absurd (err_is_not-ok h)
  past_error false e w h = (refl, h)

module _ {W : Type 0} (lib : Library W) (s : AuthService) where
  -- The claims that a token made at a time carries
  abbrev pub issued : String → W → Claims
  issued id w = claims_at id (add64 (lib.now w).0 s.ttl)

  -- A token is that of some claims at a time: three parts, the last the signature of the first two,
  -- the second the claims; a user and the issuer are named, and the time has not come.
  pub record IsGenuine (token : String) (c : Claims) (w : W) : Type 0 where
    pub header : String
    pub payload : String
    pub signature : String
    pub text : String
    pub parts : split_dots token ≡ header ∷ payload ∷ signature ∷ []
    pub authentic : lib.decode signature ≡ some (lib.mac s.secret (unsigned lib s header payload))
    pub decoded : lib.decode payload ≡ some text
    pub claimed : lib.unmarshal text ≡ some c
    pub named : (c.subject == "") ≡ false
    pub issued_here : c.issuer ≡ issuer_name
    pub fresh : leb_ℤ c.expiry (lib.now w).0 ≡ false

  genuine-parse :
      (token : String) (c : Claims) (w : W)
      → IsGenuine token c w
      → parse lib s token w ≡ (ok c, (lib.now w).1)
  unfolding parse parse_parts signature_holds read_payload read_claims
  genuine-parse token c w g =
      let same = equals_refl (lib.mac s.secret (unsigned lib s g.header g.payload)) in
      rw (g.parts, g.authentic, g.decoded, g.claimed, same, g.named, g.issued_here, g.fresh) refl

  -- The steps of `Parse`, from the last to the first.
  read_claims-inverse :
      (o : Option Claims) (c : Claims) (w v : W)
      → read_claims lib s o w ≡ (ok c, v)
      → (o ≡ some c)
        × ((c.subject == "") ≡ false)
        × (c.issuer ≡ issuer_name)
        × (leb_ℤ c.expiry (lib.now w).0 ≡ false)
  unfolding read_claims
  read_claims-inverse none c w v h = absurd (err_is_not-ok h)
  read_claims-inverse (some d) c w v h =
      let (named, h') = past_error (d.subject == "" || not (d.issuer == issuer_name)) _ _ h in
      let (fresh, h'') = past_error (leb_ℤ d.expiry (lib.now w).0) _ _ h' in
      let same : d ≡ c = ok-injective h'' in
      let (n, i) = or_false (d.subject == "") (not (d.issuer == issuer_name)) named in
      subst
        (λ (c' : Claims).
          (some d ≡ some c')
          × ((c'.subject == "") ≡ false)
          × (c'.issuer ≡ issuer_name)
          × (leb_ℤ c'.expiry (lib.now w).0 ≡ false))
        same (refl, n, (eq_string.equals_iff d.issuer issuer_name).0 (not-false _ i), fresh)

  read_payload-inverse :
      (o : Option String) (c : Claims) (w v : W)
      → read_payload lib s o w ≡ (ok c, v)
      → (t : String) × (o ≡ some t) × (read_claims lib s (lib.unmarshal t) w ≡ (ok c, v))
  unfolding read_payload
  read_payload-inverse none c w v h = absurd (err_is_not-ok h)
  read_payload-inverse (some t) c w v h = (t, refl, h)

  signature_holds-inverse :
      (text : String) (o : Option String)
      → signature_holds lib s text o ≡ true
      → o ≡ some (lib.mac s.secret text)
  unfolding signature_holds
  signature_holds-inverse text none h = absurd (ground arith)
  signature_holds-inverse text (some t) h =
      ap some ((eq_string.equals_iff t (lib.mac s.secret text)).0 h)

  parse_parts-inverse :
      (parts : List String) (c : Claims) (w v : W)
      → parse_parts lib s parts w ≡ (ok c, v)
      → (header : String) × (payload : String) × (signature : String) × (parts
          ≡ header ∷ payload ∷ signature ∷ [])
        × (signature_holds lib s (unsigned lib s header payload) (lib.decode signature) ≡ true)
        × (read_payload lib s (lib.decode payload) w ≡ (ok c, v))
  unfolding parse_parts
  parse_parts-inverse (a ∷ b ∷ c' ∷ []) c w v h =
      let (held, h') =
        past_error (not (signature_holds lib s (unsigned lib s a b) (lib.decode c'))) _ _ h in
      (a, b, c', refl, not-false _ held, h')
  parse_parts-inverse [] c w v h = absurd (err_is_not-ok h)
  parse_parts-inverse (_ ∷ []) c w v h = absurd (err_is_not-ok h)
  parse_parts-inverse (_ ∷ _ ∷ []) c w v h = absurd (err_is_not-ok h)
  parse_parts-inverse (_ ∷ _ ∷ _ ∷ _ ∷ _) c w v h = absurd (err_is_not-ok h)

  pub IsGenuine-parse :
      (token : String) (c : Claims) (w v : W)
      → parse lib s token w ≡ (ok c, v)
      → IsGenuine token c w
  unfolding parse
  IsGenuine-parse token c w v h =
      let (header, payload, signature, parts, held, read) =
        parse_parts-inverse (split_dots token) c w v h in
      let (text, decoded, claims) = read_payload-inverse (lib.decode payload) c w v read in
      let (claimed, named, issued_here, fresh) =
        read_claims-inverse (lib.unmarshal text) c w v claims in
      record {
        header = header;
        payload = payload;
        signature = signature;
        text = text;
        parts = parts;
        authentic =
            signature_holds-inverse (unsigned lib s header payload) (lib.decode signature) held;
        decoded = decoded;
        claimed = claimed;
        named = named;
        issued_here = issued_here;
        fresh = fresh;
      }

  -- `Parse` takes exactly the genuine tokens that have not expired, and gives their claims.
  pub parse-IsGenuine :
      (token : String) (c : Claims) (w : W)
      → (parse lib s token w ≡ (ok c, (lib.now w).1)) ↔ IsGenuine token c w
  parse-IsGenuine token c w = (IsGenuine-parse token c w (lib.now w).1, genuine-parse token c w)

  signed_parts :
      (std : IsStandard lib) (a b c : String)
      → has_dot a ≡ false
      → has_dot b ≡ false
      → has_dot c ≡ false
      → split_dots ((a ++ ("." ++ b)) ++ ("." ++ c)) ≡ a ∷ b ∷ c ∷ []
  signed_parts std a b c ha hb hc =
      rw
        (
          append_assoc a ("." ++ b) ("." ++ c),
          append_assoc "." b ("." ++ c),
          split_dots-append a (b ++ ("." ++ c)) ha,
          split_dots-append b c hb,
          split_dots-single c hc,
        )
        refl

  IsGenuine-signed :
      (std : IsStandard lib) (id : String) (payload : String) (w v : W)
      → (id == "") ≡ false
      → lib.marshal (issued id w) ≡ ok payload
      → leb_ℤ (issued id w).expiry (lib.now v).0 ≡ false
      → IsGenuine (signed lib s payload) (issued id w) v
  unfolding signed unsigned
  IsGenuine-signed std id payload w v named written fresh = record {
    header = lib.encode lib.header;
    payload = lib.encode payload;
    signature =
        lib.encode (lib.mac s.secret (unsigned lib s (lib.encode lib.header) (lib.encode payload)));
    text = payload;
    parts =
        signed_parts std (lib.encode lib.header) (lib.encode payload) _ (std.encode_dots lib.header)
          (std.encode_dots payload) (std.encode_dots _);
    authentic = std.decode-encode _;
    decoded = std.decode-encode payload;
    claimed = std.unmarshal-marshal (issued id w) payload written;
    named = named;
    issued_here = refl;
    fresh = fresh;
  }

  sign-inverse :
      (r : Result String) (token : String)
      → (r >>= λ payload. ok (signed lib s payload)) ≡ ok token
      → (payload : String) × (r ≡ ok payload) × (token ≡ signed lib s payload)
  sign-inverse (ok payload) token h = (payload, refl, cc)
  sign-inverse (err e) token h = absurd cc

  -- A token that `sign` gave a user, in an `Authorization` header before it expires, makes that user
  -- the caller.
  pub authenticate-sign :
      (std : IsStandard lib) (id : String) (token : String) (w w' v : W)
      → (id == "") ≡ false
      → sign lib s id w ≡ (ok token, w')
      → leb_ℤ (issued id w).expiry (lib.now v).0 ≡ false
      → authenticate lib s ("Bearer " ++ token) v ≡ (ok (some id), (lib.now v).1)
  unfolding sign authenticate bearer
  authenticate-sign std id token w w' v named made fresh =
      let (payload, written, same) =
        sign-inverse (lib.marshal (issued id w)) token (ap (λ x. x.0) made) in
      let genuine = IsGenuine-signed std id payload w v named written fresh in
      rw
        (
          after_prefix-append "Bearer " token,
          same,
          genuine-parse (signed lib s payload) (issued id w) v genuine,
        )
        refl
