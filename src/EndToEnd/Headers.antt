-- ===== src/EndToEnd/Headers.antt =====
-- The headers of a request and of its response, on their way through the envelopes.
use go_tunnel.Base.{
  bytes, sym, Bytes, Option, none, some, List, [], ◌∷◌, arith, ◌≡◌, refl, bytes_eq, bytes_beq_iff,
  ◌==◌, Bool-cases, inl, inr, ◌∙◌, Option-cases, if◌then◌else◌, ◌++◌,
}
use go_tunnel.Base.Int.{ℤ}
use go_tunnel.GoMap
use go_tunnel.GoMap.{GoMap}
use go_tunnel.GoMap.Assoc.{Unique, find}
use go_tunnel.Server.Connect.{format_int}
use go_tunnel.Config.Types.{ClientSettings}
use go_tunnel.Proxy.{Request, join_values, join_headers, envelope}
use go_tunnel.Client.Handler.{
  LocalCall, canonical_key, set_headers, response_headers, local_call, target_url,
}
use go_tunnel.EndToEnd.{mirrored}

-- The values of a header in one text, with commas between them.
abbrev pub joined : Option (List Bytes) → Option Bytes
joined none = none
joined (some values) = some (join_values values)

abbrev alone : Option Bytes → Option (List Bytes)
alone none = none
alone (some v) = some (v ∷ [])

abbrev over {ℓ} : {A : Type ℓ} → Option A → Option A → Option A
over old none = old
over old (some v) = some v

join_headers-get :
    (l : List (Bytes × List Bytes)) (m : GoMap Bytes Bytes) (k : Bytes)
    → Unique l
    → GoMap.get (join_headers l m) k ≡ over (GoMap.get m k) (joined (find k l))
unfolding join_headers find
join_headers-get [] m k u = refl
join_headers-get ((j, vs) ∷ l) m k u =
    let rest = join_headers-get l (GoMap.put m j (join_values vs)) k u.1 in
    let put = GoMap.get-put m j k (join_values vs) in
    elim (Bool-cases (j == k)) [
      | inl hit ↦ ground (arith, rest, put, bytes_beq_iff j k, bytes_beq_iff k j, u.0)
      | inr miss ↦ ground (arith, rest, put, bytes_beq_iff j k, bytes_beq_iff k j)
    ]

response_headers-get :
    (l : List (Bytes × List Bytes)) (m : GoMap Bytes Bytes) (k : Bytes)
    → Unique l
    → GoMap.get (response_headers l m) k ≡ over (GoMap.get m k) (joined (find k l))
unfolding response_headers find
response_headers-get [] m k u = refl
response_headers-get ((j, vs) ∷ l) m k u =
    let rest = response_headers-get l (GoMap.put m j (join_values vs)) k u.1 in
    let put = GoMap.get-put m j k (join_values vs) in
    elim (Bool-cases (j == k)) [
      | inl hit ↦ ground (arith, rest, put, bytes_beq_iff j k, bytes_beq_iff k j, u.0)
      | inr miss ↦ ground (arith, rest, put, bytes_beq_iff j k, bytes_beq_iff k j)
    ]

-- Every name is in its canonical spelling.
abbrev AllCanonical : List (Bytes × Bytes) → Type 0
AllCanonical l = (k v : Bytes) → find k l ≡ some v → canonical_key k ≡ k

set_headers-get :
    (l : List (Bytes × Bytes)) (m : GoMap Bytes (List Bytes)) (k : Bytes)
    → Unique l
    → AllCanonical l
    → GoMap.get (set_headers l m) k ≡ over (GoMap.get m k) (alone (find k l))
unfolding set_headers find
set_headers-get [] m k u all = refl
set_headers-get ((j, v) ∷ l) m k u all =
    let own : canonical_key j ≡ j = all j v (ground (arith, bytes_beq_iff j j)) in
    let later : AllCanonical l =
      λ i w h. all i w (ground (arith, bytes_beq_iff j i, bytes_beq_iff i j, u.0)) in
    let rest = set_headers-get l (GoMap.put m (canonical_key j) (v ∷ [])) k u.1 later in
    let put = GoMap.get-put m j k (v ∷ []) in
    elim (Bool-cases (j == k)) [
      | inl hit ↦ ground (arith, rest, own, put, bytes_beq_iff j k, bytes_beq_iff k j, u.0)
      | inr miss ↦ ground (arith, rest, own, put, bytes_beq_iff j k, bytes_beq_iff k j)
    ]

-- net/http spells the header names of a request in the canonical way.
abbrev pub IsCanonical : GoMap Bytes (List Bytes) → Type 0
IsCanonical header =
    (k : Bytes) (values : List Bytes) → GoMap.get header k ≡ some values → canonical_key k ≡ k

envelope-get :
    (r : Request) (body k : Bytes)
    → GoMap.get (envelope r body).headers k ≡ joined (GoMap.get r.header k)
unfolding envelope
envelope-get r body k =
    join_headers-get (GoMap.range r.header) GoMap.empty k (GoMap.range-Unique r.header)
    ∙ rw (GoMap.find-range r.header k) (ground (arith, GoMap.get-empty {V = Bytes} k))

pub response_headers-joined :
    (header : GoMap Bytes (List Bytes)) (k : Bytes)
    → GoMap.get (response_headers (GoMap.range header) GoMap.empty) k ≡ joined (GoMap.get header k)
response_headers-joined header k =
    response_headers-get (GoMap.range header) GoMap.empty k (GoMap.range-Unique header)
    ∙ rw (GoMap.find-range header k) (ground (arith, GoMap.get-empty {V = Bytes} k))

-- The local service is asked for what the user has asked: the method, the URI behind the client's own
-- address and the tunnel's port, the body, and each header with its values joined into one.
pub record Asks (settings : ClientSettings) (port : ℤ) (r : Request) (body : Bytes)
    (call : LocalCall) : Type 0 where
  pub method : call.method ≡ r.method
  pub url :
      call.url
      ≡ bytes "http://"
        ++ (if settings.local_bind == [] then bytes "127.0.0.1" else settings.local_bind)
        ++ b':' ∷ format_int port
        ++ r.request_uri
  pub header : (k : Bytes) → GoMap.get call.header k ≡ alone (joined (GoMap.get r.header k))
  pub content : call.body ≡ body

pub local_call-Asks :
    (settings : ClientSettings) (port : ℤ) (r : Request) (body : Bytes)
    → IsCanonical r.header
    → Asks settings port r body (local_call settings port (mirrored (envelope r body)))
unfolding local_call target_url
local_call-Asks settings port r body canonical =
    let headers = (envelope r body).headers in
    let all : AllCanonical (GoMap.range headers) = λ k v h.
      let known : joined (GoMap.get r.header k) ≡ some v =
        sym (envelope-get r body k) ∙ sym (GoMap.find-range headers k) ∙ h in
      elim (Option-cases (GoMap.get r.header k)) [
        | inl missing ↦ let k : ⊥ = ground arith in absurd k
        | inr (values, found) ↦ canonical k values found
      ] in
    record {
      method = unfold envelope in refl;
      url = unfold envelope in refl;
      header = λ k.
          set_headers-get (GoMap.range headers) GoMap.empty k (GoMap.range-Unique headers) all
          ∙ rw (GoMap.find-range headers k)
              (rw (envelope-get r body k) (ground (arith, GoMap.get-empty {V = List Bytes} k)));
      content = unfold envelope in refl;
    }
