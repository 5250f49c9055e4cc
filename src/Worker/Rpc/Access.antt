-- ===== src/Worker/Rpc/Access.antt =====
-- Whom the server of a worker lets in (internal/worker/rpc.go, authenticate).
use stacyvm.Base.{
  ℕ, String, ◌≡◌, refl, sym, subst, ◌∙◌, inl, inr, true, false, not, ◌&&◌, Option, some, List, [],
  ◌∷◌, arith, eq_iff, eq_refl, Bool-cases, Option-cases, str_eq, is_empty, trim_space,
}
use stacyvm.Api.WorkerAuth.{
  WorkerTokenClaims, worker_token_audience_control_plane, check_audience, listed,
  verify_worker_token_for_audience,
}
use stacyvm.Api.WorkerAuth.Tokens.{Accepted, verify-Accepted, same_claims}
use stacyvm.Worker.Rpc.Checks.{RpcServer}
use stacyvm.Worker.Rpc.{
  HttpRequest, worker_token_audience_rpc, worker_token_revoked, presented_token, signed_by_any,
  authenticate,
}

false-true : false ≡ true → ⊥
false-true e = ground arith

module _ (sign : String → String → String) (decode : String → Option WorkerTokenClaims) where
  -- Why a request is let in: its token is the server's static one, or is accepted under one of the
  -- signing keys for the audience of the RPC server, names this worker, and is not revoked.
  pub data Admitted (s : RpcServer) (token : String) (now : ℕ) : Type 0 where
    static :
        is_empty (trim_space s.token) ≡ false → token ≡ trim_space s.token → Admitted s token now
    signed :
        (key : String) (c : WorkerTokenClaims)
        → listed key (s.signing_key ∷ s.signing_keys) ≡ true
        → Accepted sign decode key worker_token_audience_rpc token now c
        → c.worker_id ≡ trim_space s.worker_id
        → worker_token_revoked c s.revoked_token_ids ≡ false
        → Admitted s token now

  -- The same for one key, and for a list of keys.
  Signed : RpcServer → String → ℕ → List String → Type 0
  Signed s token now keys =
      (key : String) × (c : WorkerTokenClaims) × (listed key keys ≡ true)
      × Accepted sign decode key worker_token_audience_rpc token now c
      × (c.worker_id ≡ trim_space s.worker_id)
      × (worker_token_revoked c s.revoked_token_ids ≡ false)

  signed_by_any-Signed :
      (s : RpcServer) (token : String) (now : ℕ) (keys : List String)
      → signed_by_any sign decode s token now keys ≡ true
      → Signed s token now keys
  unfolding signed_by_any Signed listed
  signed_by_any-Signed s token now [] e = absurd (ground arith)
  signed_by_any-Signed s token now (key ∷ keys) e =
      let verified =
        verify_worker_token_for_audience sign decode key token worker_token_audience_rpc now in
      elim (Option-cases verified) [
        | inl bad ↦
            let (k, c, from, good, mine, fresh) =
              signed_by_any-Signed s token now keys (rw (bad) at e) in
            (k, c, ground (arith, from), good, mine, fresh)
        | inr (c, good) ↦
            let mine = str_eq c.worker_id (trim_space s.worker_id) in
            let fresh = not (worker_token_revoked c s.revoked_token_ids) in
            elim (Bool-cases (mine && fresh)) [
              | inl both ↦ (
                key,
                c,
                rw (eq_refl) refl,
                verify-Accepted sign decode key token worker_token_audience_rpc now c good,
                ground (arith, eq_iff c.worker_id (trim_space s.worker_id)),
                ground arith,
              )
              | inr not_both ↦
                  let (k, c', from, accepted, about, kept) =
                    signed_by_any-Signed s token now keys (rw (good, not_both) at e) in
                  (k, c', ground (arith, from), accepted, about, kept)
            ]
      ]

  -- A request is let in only if the server has an id, the request is addressed to it, and its token is
  -- there for a good reason.
  pub authenticate-Admitted :
      (s : RpcServer) (r : HttpRequest) (now : ℕ)
      → authenticate sign decode s r now ≡ true
      → (is_empty (trim_space s.worker_id) ≡ false)
        × (r.worker_id ≡ trim_space s.worker_id)
        × (is_empty (presented_token r) ≡ false)
        × Admitted s (presented_token r) now
  unfolding authenticate Signed
  authenticate-Admitted s r now e =
      let token = presented_token r in
      let keys = s.signing_key ∷ s.signing_keys in
      let named : is_empty (trim_space s.worker_id) ≡ false = ground arith in
      let mine : r.worker_id ≡ trim_space s.worker_id =
        ground (arith, eq_iff r.worker_id (trim_space s.worker_id)) in
      let given : is_empty token ≡ false = ground arith in
      (
        named,
        mine,
        given,
        elim (Bool-cases (signed_by_any sign decode s token now keys)) [
          | inl by_key ↦
              let (key, c, from, good, about, fresh) =
                signed_by_any-Signed s token now keys by_key in
              signed key c from good about fresh
          | inr by_none ↦ static (ground arith) (ground (arith, eq_iff token (trim_space s.token)))
        ],
      )

  -- A signed token that is good for the control plane and for a worker's RPC server, at whatever times
  -- and under whatever keys, names no audience: one that does is good on one side only.
  pub token_audience_separates :
      (key key' token : String) (now later : ℕ) (c c' : WorkerTokenClaims)
      → verify_worker_token_for_audience sign decode key token worker_token_audience_control_plane
          now
        ≡ some c
      → verify_worker_token_for_audience sign decode key' token worker_token_audience_rpc later
        ≡ some c'
      → (c' ≡ c) × (c.audience ≡ "")
  unfolding check_audience trim_space
  token_audience_separates key key' token now later c c' e e' =
      let a = verify-Accepted sign decode key token worker_token_audience_control_plane now c e in
      let a' = verify-Accepted sign decode key' token worker_token_audience_rpc later c' e' in
      let same =
        same_claims sign decode key key' worker_token_audience_control_plane
          worker_token_audience_rpc token now later c c' a a' in
      let here : check_audience worker_token_audience_control_plane c ≡ true = a.addressed in
      let there : check_audience worker_token_audience_rpc c ≡ true =
        subst (λ x. check_audience worker_token_audience_rpc x ≡ true) same a'.addressed in
      (
        same,
        elim (Bool-cases (is_empty c.audience)) [
          | inl none_named ↦ (eq_iff c.audience "").0 none_named
          | inr named ↦
              let cp : c.audience ≡ "worker:control-plane" =
                ground (arith, eq_iff c.audience "worker:control-plane") in
              let rpc : c.audience ≡ "worker:rpc" =
                ground (arith, eq_iff c.audience "worker:rpc") in
              absurd (false-true ((eq_iff "worker:control-plane" "worker:rpc").1 (sym cp ∙ rpc)))
        ],
      )
