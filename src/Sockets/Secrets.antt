-- ===== src/Sockets/Secrets.antt =====
-- What a successful answer of CheckRoomSecret tells.
use page_spy_api.Base.{
  ℕ, String, true, false, Option, none, some, ◌==◌, eq_iff, ◌≡◌, ◌≢◌, sym, ap, subst, ◌∙◌, inl, inr,
  Bool-cases,
}
use page_spy_api.Failure.{GoError, Outcome, ok, err, panic, text, ok-injective}
use page_spy_api.Address.{Address, new_address_from_id}
use page_spy_api.Message.{Info}
use page_spy_api.World.{Env}
use page_spy_api.World.Action.{◌>>=◌, bind_inv, lift_inv}
use page_spy_api.Cluster.{Cluster, Response, remote_get}
use page_spy_api.Responses.{HttpReply, new_error_response, new_success_response}
use page_spy_api.Sockets.Handlers.{
  answer_error, answered, blank_info, info_of, compare_secret, check_secret,
  handle_check_room_secret,
}

-- The reply is no success.
refused : (e : GoError) (reply : HttpReply) → answer_error e ≡ reply → reply.body.success ≢ true
unfolding new_error_response
refused e reply h k = let f : false ≡ true = ap (λ r. r.body.success) h ∙ k in absurd cc

info_found : (o : Option Info) (i : Info) → info_of o ≡ ok i → o ≡ some i
info_found none i h = absurd cc
info_found (some j) i h = ap some (ok-injective h)

no_secret :
    (secret : String) (i : Info) (reply : HttpReply)
    → compare_secret secret i ≡ reply
    → reply.body.success ≡ true
    → secret ≡ i.secret
unfolding new_success_response
no_secret secret i reply h k = elim (Bool-cases (secret == i.secret)) [
  | inl e ↦ (eq_iff secret i.secret).0 e
  | inr e ↦ absurd (refused (text "wrong secret") reply (rw e at h) k)
]

-- What a checked secret comes from: the answer of GetRoom at the address.
pub record Checked (env : String → Env) (self : String) (now : ℕ) (secret id : String)
    (c t : Cluster) : Type 0 where
  pub given : secret ≢ ""
  pub a : Address
  pub parsed : new_address_from_id id ≡ ok a
  pub res : Response
  pub called : remote_get env self now (blank_info a "" "") c ≡ (ok res, t)
  pub i : Info
  pub found : res.room ≡ some i
  pub same : secret ≡ i.secret

module _ (env : String → Env) (self : String) (now : ℕ) (secret id : String) (c t : Cluster) where
  checked :
      (reply : HttpReply)
      → secret ≢ ""
      → check_secret env self now secret id c ≡ (ok reply, t)
      → reply.body.success ≡ true
      → Checked env self now secret id c t
  unfolding check_secret ◌>>=◌
  checked reply given h k =
      let (a, parsed, h₁) = lift_inv (new_address_from_id id) _ c t reply h in
      let (res, t', called, h₂) =
        bind_inv (remote_get env self now (blank_info a "" "")) _ c t reply h₁ in
      let (i, found, h₃) = lift_inv (info_of res.room) _ t' t reply h₂ in
      let same : compare_secret secret i ≡ reply = ok-injective (ap (λ q. q.0) h₃) in
      let ends : t' ≡ t = ap (λ q. q.1) h₃ in
      record {
        given = given;
        a = a;
        parsed = parsed;
        res = res;
        called =
            subst (λ u. remote_get env self now (blank_info a "" "") c ≡ (ok res, u)) ends called;
        i = i;
        found = info_found res.room i found;
        same = no_secret secret i reply same k;
      }

  answer : Outcome HttpReply × Cluster → Outcome HttpReply × Cluster
  answer p = (answered p.0, p.1)

  answered_ok :
      (p : Outcome HttpReply × Cluster) (reply : HttpReply)
      → answer p ≡ (ok reply, t)
      → reply.body.success ≡ true
      → p ≡ (ok reply, t)
  unfolding answer
  answered_ok (ok r, u) reply h k = h
  answered_ok (err e, u) reply h k = absurd (refused e reply (ok-injective (ap (λ q. q.0) h)) k)
  answered_ok (panic, u) reply h k = h

  differs : (secret == "") ≡ false → secret ≢ ""
  differs e f = let g : true ≡ false = sym ((eq_iff secret "").1 f) ∙ e in cc

  -- If CheckRoomSecret answers with success, the secret is not empty, the address can be read, and
  -- the room that GetRoom finds there has this secret.
  pub handle_check_room_secret-Checked :
      (reply : HttpReply)
      → handle_check_room_secret env self now secret id c ≡ (ok reply, t)
      → reply.body.success ≡ true
      → Checked env self now secret id c t
  unfolding handle_check_room_secret answer ◌>>=◌
  handle_check_room_secret-Checked reply h k = elim (Bool-cases (secret == "")) [
    | inl e ↦ absurd (
        refused (text "'secret' cannot be empty") reply (ok-injective (ap (λ q. q.0) (rw e at h)))
          k)
    | inr e ↦
        checked reply (differs e)
          (answered_ok (check_secret env self now secret id c) reply (rw e at h) k) k
  ]
