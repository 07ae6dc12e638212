-- ===== src/Proxy/Seen.antt =====
-- What a user sees of the calls on an http.ResponseWriter: the headers set in front of the first
-- WriteHeader, the last one of each name, that call's status, and the bytes written.
use go_tunnel.Base.{
  Bytes, Option, none, some, List, [], ◌∷◌, ◌++◌, map, arith, ◌≡◌, refl, bytes_eq, bytes_beq_iff,
  ◌==◌, if◌then◌else◌, Bool-cases, inl, inr, ◌∙◌,
}
use mathlib.Core.List.{append-nil}
use go_tunnel.Base.Int.{ℤ}
use go_tunnel.GoMap
use go_tunnel.GoMap.Assoc.{Unique, find}
use go_tunnel.Proxy.{
  HttpResponse, Setup, WriterCall, write_header, set_header, write, error, header_call, body_calls,
}

abbrev pub header_seen : Bytes → Option Bytes → List WriterCall → Option Bytes
header_seen k found [] = found
header_seen k found (set_header j v ∷ calls) =
    header_seen k (if j == k then some v else found) calls
header_seen k found (write_header status ∷ calls) = found
header_seen k found (write b ∷ calls) = found
header_seen k found (error message status ∷ calls) = found

abbrev pub status_seen : List WriterCall → Option ℤ
status_seen [] = none
status_seen (set_header j v ∷ calls) = status_seen calls
status_seen (write_header status ∷ calls) = some status
status_seen (write b ∷ calls) = none
status_seen (error message status ∷ calls) = none

abbrev pub body_seen : List WriterCall → Bytes
body_seen [] = []
body_seen (set_header j v ∷ calls) = body_seen calls
body_seen (write_header status ∷ calls) = body_seen calls
body_seen (write b ∷ calls) = b ++ body_seen calls
body_seen (error message status ∷ calls) = body_seen calls

-- The user sees the status, the headers and the body of the response.
pub record IsShown (resp : HttpResponse) (calls : List WriterCall) : Type 0 where
  pub status : status_seen calls ≡ some resp.status_code
  pub header : (k : Bytes) → header_seen k none calls ≡ GoMap.get resp.headers k
  pub body : body_seen calls ≡ resp.body

abbrev over : Option Bytes → Option Bytes → Option Bytes
over found none = found
over found (some v) = some v

module _ (setup : Setup) (status : ℤ) (body : Bytes) where
  abbrev calls_of : List (Bytes × Bytes) → List WriterCall
  calls_of headers = map (header_call setup) headers ++ write_header status ∷ body_calls setup body

  header-calls_of :
      (l : List (Bytes × Bytes)) (k : Bytes) (found : Option Bytes)
      → Unique l
      → header_seen k found (calls_of l) ≡ over found (find k l)
  unfolding find
  header-calls_of [] k found u = refl
  header-calls_of ((j, v) ∷ l) k found u = elim (Bool-cases (j == k)) [
    | inl hit ↦
        ground (arith, header-calls_of l k (some v) u.1, bytes_beq_iff j k, bytes_beq_iff k j, u.0)
    | inr miss ↦ ground (arith, header-calls_of l k found u.1, bytes_beq_iff j k, bytes_beq_iff k j)
  ]

  status-calls_of : (l : List (Bytes × Bytes)) → status_seen (calls_of l) ≡ some status
  status-calls_of [] = refl
  status-calls_of ((j, v) ∷ l) = status-calls_of l

  body-body_calls : (b : Bytes) → body_seen (body_calls setup b) ≡ b
  body-body_calls [] = refl
  body-body_calls (c ∷ b) = append-nil (c ∷ b)

  body-calls_of : (l : List (Bytes × Bytes)) → body_seen (calls_of l) ≡ body
  body-calls_of [] = body-body_calls body
  body-calls_of ((j, v) ∷ l) = body-calls_of l

pub written-IsShown :
    (setup : Setup) (resp : HttpResponse)
    → IsShown resp (
        map (header_call setup) (GoMap.range resp.headers)
        ++ write_header resp.status_code ∷ body_calls setup resp.body)
written-IsShown setup resp =
    let l = GoMap.range resp.headers in
    record {
      status = status-calls_of setup resp.status_code resp.body l;
      header = λ k.
          header-calls_of setup resp.status_code resp.body l k none
            (GoMap.range-Unique resp.headers)
          ∙ rw (GoMap.find-range resp.headers k) (ground arith);
      body = body-calls_of setup resp.status_code resp.body l;
    }
