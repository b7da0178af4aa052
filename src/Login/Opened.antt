-- ===== src/Login/Opened.antt =====
-- Which sessions there are after a login (`Login` of internal/auth/auth.go).
use webridge.Prelude.{
  ◌≡◌, ◌+◌, ◌⊎◌, inr, Bool, true, false, Option, none, some, Text, eq_iff, arith,
}
use webridge.Prelude.Table.{lookup, lookup-insert, IsMap, insert-IsMap}
use webridge.Auth.{Session}
use webridge.Bruteforce.{check}
use webridge.World.{World, with_service, audited}
use webridge.Login.{LoginRequest, Outside, Attempt, authenticate, finish, checked, login}
use webridge.Login.Sources.{authenticate-KeepsSessions, finish_sessions}

-- A session has the token and the user of the request, or was there before.
abbrev pub IsNewOrOld : Outside → Text → Session → World → LoginRequest → Type 0
IsNewOrOld o token sess w req =
    ((token ≡ o.token) × (sess.username ≡ req.username)) ⊎ (lookup token w.svc.sessions ≡ some sess)

module _ (o : Outside) (ip token : Text) (sess : Session) where
  finish-sessions :
      (name : Text) (w : World) (a : Attempt)
      → lookup token (finish o ip name w a).0.svc.sessions ≡ some sess
      → ((token ≡ o.token) × (sess.username ≡ name)) ⊎ (lookup token a.svc.sessions ≡ some sess)
  finish-sessions name w a h =
      let opened : Session = record {
        username = name;
        role = a.user.role;
        expires = o.clock.at_session + a.svc.ttl;
      } in
      ground (
        arith,
        finish_sessions o ip name w a,
        lookup-insert o.token token opened a.svc.sessions,
        eq_iff o.token token,
      )

  checked-sessions :
      (req : LoginRequest) (w : World) (locked : Bool × Text)
      → lookup token (checked o ip req w locked).0.svc.sessions ≡ some sess
      → IsNewOrOld o token sess w req
  unfolding checked audited
  checked-sessions req w (true, reason) h = inr h
  checked-sessions req w (false, reason) h =
      let a = authenticate o w.svc req.username req.password in
      let kept = authenticate-KeepsSessions o w.svc req.username req.password in
      rw (← kept.sessions) (finish-sessions req.username w a h)

  -- A session that there is after a login has the token and the name of this login, or was there before.
  pub login-sessions :
      (w : World) (req : LoginRequest)
      → lookup token (login o ip w (some req)).0.svc.sessions ≡ some sess
      → IsNewOrOld o token sess w req
  unfolding login
  login-sessions w req h =
      let (bf, answer) = check w.svc.bf o.clock.at_check o.clock.at_until ip req.username in
      let w' = with_service w (record w.svc { bf = bf }) in
      ground (arith, h, checked-sessions req w' answer)

module _ (o : Outside) (ip : Text) where
  finish-IsMap :
      (name : Text) (w : World) (a : Attempt)
      → IsMap a.svc.sessions
      → IsMap (finish o ip name w a).0.svc.sessions
  finish-IsMap name w a d =
      let opened : Session = record {
        username = name;
        role = a.user.role;
        expires = o.clock.at_session + a.svc.ttl;
      } in
      rw (finish_sessions o ip name w a)
        (ground (arith, d, insert-IsMap o.token opened a.svc.sessions d))

  checked-IsMap :
      (req : LoginRequest) (w : World) (locked : Bool × Text)
      → IsMap w.svc.sessions
      → IsMap (checked o ip req w locked).0.svc.sessions
  unfolding checked audited
  checked-IsMap req w (true, reason) d = d
  checked-IsMap req w (false, reason) d =
      let a = authenticate o w.svc req.username req.password in
      let kept = authenticate-KeepsSessions o w.svc req.username req.password in
      finish-IsMap req.username w a (rw kept.sessions d)

  -- No token is twice after a login.
  pub login-IsMap :
      (w : World) (req : Option LoginRequest)
      → IsMap w.svc.sessions
      → IsMap (login o ip w req).0.svc.sessions
  unfolding login
  login-IsMap w none d = d
  login-IsMap w (some req) d =
      let (bf, answer) = check w.svc.bf o.clock.at_check o.clock.at_until ip req.username in
      let w' = with_service w (record w.svc { bf = bf }) in
      ground (arith, d, checked-IsMap req w' answer d)
