-- ===== src/Gateway/Authorize/Asking.antt =====
-- gateway/authorize.go from end to end: `ResourceAuthorize`, which asks a peer, over the stream on which the
-- peer's `authorizeHandler` reads and writes. Both sides read once, into 1024 bytes; what has arrived by then
-- is an argument. encoding/json is a record of its two calls.
use uptp.Common.{
  ℕ, zero, suc, ◌≤◌, ◌≡◌, ◌∙◌, ap, refl, sym, arith, Bool, Option, none, some, String, List, [],
  ◌∷◌, Answer, gives, fails, Answer-cases, Result, ok, err, panic, inl, inr, length, take, take_all,
}
use uptp.Gateway.Store.{Leveldb, TextBytes}
use uptp.Gateway.PortmapResource.{PortmapResMgr}
use uptp.Gateway.ProxyService.{ProxyServiceConfig}
use uptp.Gateway.Authorize.{
  AuthorizeReq, AuthorizeResp, Outcome, silent, wrote, crashed, authorize_handler,
}

-- `json.Marshal` and `json.Unmarshal` at a struct; a document is not empty, and is read back.
pub record WireJson (V : Type 0) : Type 0 where
  pub marshal : V → Answer (List ℕ)
  pub unmarshal : List ℕ → Answer V
  pub unmarshal-marshal : (v : V) (doc : List ℕ) → marshal v ≡ gives doc → unmarshal doc ≡ gives v
  pub marshal-ne : (v : V) → marshal v ≡ gives [] → ⊥

-- The size of the buffers of both sides
abbrev pub buffer_size : ℕ
buffer_size = 1024

-- One `Read` of a stream on which these bytes were sent, when so many of them have arrived; none at all
-- means that the stream was closed.
unfoldable pub read_once : ℕ → List ℕ → Answer (List ℕ)
read_once arrived sent = elim (take buffer_size (take arrived sent)) [
  | [] ↦ fails "EOF"
  | b ∷ bytes ↦ gives (b ∷ bytes)
]

module _ (req_json : WireJson AuthorizeReq) (resp_json : WireJson AuthorizeResp) where
  -- What the peer sees of a request, none where the read or the decoding fails; and what it writes.
  unfoldable pub read_request : ℕ → List ℕ → Option AuthorizeReq
  read_request arrived sent = elim (read_once arrived sent) [
    | fails e ↦ none
    | gives doc ↦ elim (req_json.unmarshal doc) [ fails e ↦ none | gives req ↦ some req ]
  ]

  unfoldable pub written : Outcome → List ℕ
  written silent = []
  written crashed = []
  written (wrote resp) = elim (resp_json.marshal resp) [ fails e ↦ [] | gives doc ↦ doc ]

  -- What the asking side makes of the answer's bytes
  unfoldable pub read_response : ℕ → List ℕ → Answer AuthorizeResp
  read_response arrived sent = elim (read_once arrived sent) [
    | fails e ↦ fails e
    | gives bytes ↦ resp_json.unmarshal bytes
  ]

  -- `ResourceAuthorize`: what `peer.Decode` and `NewStream` answer, what the peer does on what it is sent,
  -- and how many bytes of its answer have arrived. The error of the write is not looked at.
  unfoldable pub resource_authorize :
      AuthorizeReq → Result String → Option String → (List ℕ → Outcome) → ℕ → Answer AuthorizeResp
  unfolding written
  resource_authorize req decoded new_stream peer arrived = elim (req_json.marshal req) [
    | fails e ↦ fails e
    | gives doc ↦ elim decoded [
      | err e ↦ fails e
      | panic ↦ fails ""
      | ok pid ↦ elim new_stream [
        | some e ↦ fails e
        | none ↦ read_response arrived (written (peer doc))
      ]
    ]
  ]

  read_whole :
      (arrived : ℕ) (doc : List ℕ)
      → (doc ≡ [] → ⊥)
      → length doc ≤ arrived
      → length doc ≤ buffer_size
      → read_once arrived doc ≡ gives doc
  unfolding read_once
  read_whole arrived [] ne a b = absurd (ne refl)
  read_whole arrived (c ∷ cs) ne a b =
      let all : take arrived (c ∷ cs) ≡ c ∷ cs = take_all arrived (c ∷ cs) a in
      let whole : take buffer_size (c ∷ cs) ≡ c ∷ cs = take_all buffer_size (c ∷ cs) b in
      ground (arith, all, whole, ap (take buffer_size) all)

  -- What the answer comes to when it is read.
  unfoldable pub heard : Outcome → Answer AuthorizeResp
  heard silent = fails "EOF"
  heard crashed = fails "EOF"
  heard (wrote resp) = elim (resp_json.marshal resp) [
    | fails e ↦ fails "EOF"
    | gives doc ↦ gives resp
  ]

  read_nothing : (back : ℕ) → read_once back [] ≡ fails "EOF"
  unfolding read_once
  read_nothing zero = refl
  read_nothing (suc back) = refl

  read_response-written :
      (back : ℕ) (o : Outcome)
      → length (written o) ≤ back
      → length (written o) ≤ buffer_size
      → read_response back (written o) ≡ heard o
  unfolding read_response written heard
  read_response-written back silent a b = ground (arith, read_nothing back)
  read_response-written back crashed a b = ground (arith, read_nothing back)
  read_response-written back (wrote resp) a b = elim (Answer-cases (resp_json.marshal resp)) [
    | inl (doc, x) ↦
        let w : written (wrote resp) ≡ doc = rw (written, x) refl in
        let whole : read_once back doc ≡ gives doc =
          read_whole back doc (λ n. resp_json.marshal-ne resp (x ∙ ap gives n)) (rw (sym w) a)
            (rw (sym w) b) in
        ground (arith, w, x, whole, resp_json.unmarshal-marshal resp doc x)
    | inr (e, x) ↦
        let w : written (wrote resp) ≡ [] = rw (written, x) refl in
        ground (arith, w, x, read_nothing back)
  ]

  module _ {D B : Type 0} (ldb : Leveldb D B) (text : TextBytes B) where
    -- A peer that runs `authorizeHandler` on what it is sent.
    unfoldable pub handling :
        Bool → ℕ → Result String → ProxyServiceConfig → PortmapResMgr D → D → ℕ → List ℕ → Outcome
    handling trial random name pc m db arrived sent =
        (authorize_handler ldb text trial random name pc (read_request arrived sent) m db).0

    -- A question that reaches a peer is answered by what the peer's handler makes of it: its document comes
    -- back as it was written, and where it writes none, an error; on both ways a document has at most 1024
    -- bytes and has arrived whole when it is read.
    pub resource_authorize-handler :
        (trial : Bool) (random : ℕ) (name : Result String) (pc : ProxyServiceConfig)
        (m : PortmapResMgr D) (db : D) (req : AuthorizeReq) (pid : String) (doc : List ℕ)
        (there back : ℕ)
        → req_json.marshal req ≡ gives doc
        → length doc ≤ there
        → length doc ≤ buffer_size
        → let o = (authorize_handler ldb text trial random name pc (some req) m db).0 in
          length (written o) ≤ back
          → length (written o) ≤ buffer_size
          → resource_authorize req (ok pid) none (handling trial random name pc m db there) back
            ≡ heard o
    unfolding resource_authorize handling read_request
    resource_authorize-handler trial random name pc m db req pid doc there back d a b c e =
        let whole : read_once there doc ≡ gives doc =
          read_whole there doc (λ n. req_json.marshal-ne req (d ∙ ap gives n)) a b in
        let asked : read_request there doc ≡ some req =
          ground (arith, whole, req_json.unmarshal-marshal req doc d) in
        let handled : handling trial random name pc m db there doc
            ≡ (authorize_handler ldb text trial random name pc (some req) m db).0 =
          rw (handling, asked) refl in
        rw (resource_authorize, d, handled)
          (read_response-written back
            (authorize_handler ldb text trial random name pc (some req) m db).0 c e)
