-- ===== src/Db/Oracle/Connecting.antt =====
-- How src/db/oracle/OracleConnection.c makes and frees its delegate. The scratch buffer `sb` is not part of
-- the state: each function that uses it sets it first.
use libzdb.Prelude.{
  ℕ, Bool, true, false, ◌++◌, Option, some, none, Text, Result, ok, err, if◌then◌else◌, drop, ◌⊎◌,
  inl, inr,
}
use libzdb.Prelude.Int.{ℤ, pos, ltb_ℤ}
use libzdb.Util.Str.{lit, is_equal, parse_int}
use libzdb.Net.Url.{Url, parameter}
use libzdb.Db.Oracle.Adapter.{Oci, Status, is_success, is_fine, message, error_buffer}
use libzdb.Db.Oracle.Watchdog.{Timer}

-- `struct ConnectionDelegate_T`, less the address of the connection and `maxRows`, which nothing reads.
pub record Session (q : Oci) : Type 0 where
  pub env : Option q.Env
  pub err : Option q.Err
  pub svc : Option q.Svc
  pub usr : Option q.Usr
  pub srv : Option q.Srv
  pub txnhp : Option q.Txn
  pub erb : Text
  pub timer : Timer
  pub last_error : Status
  pub rows_changed : ℕ
  pub watchdog : Option q.Thread

-- Where to connect.
pub record Target : Type 0 where
  pub username : Text
  pub password : Text
  pub servicename : Text

abbrev or_else : Option Text → Option Text → Option Text
or_else none b = b
or_else (some t) b = some t

abbrev given : {A : Type 0} → Text → Option A → (A → Target ⊎ Text) → Target ⊎ Text
given missing none rest = inr missing
given missing (some a) rest = rest a

-- What `_doConnect` takes from the URL first, or what the URL lacks.
pub target : Url → Target ⊎ Text
target U =
    given (lit "no username specified in URL") (or_else U.user (parameter U (lit "user"))) (λ user.
      given (lit "no password specified in URL") (or_else U.password (parameter U (lit "password")))
        (λ password. given (lit "no Service Name specified in URL") U.path (λ path.
          inl (record { username = user; password = password; servicename = drop 1 path }))))

abbrev is_some : {A : Type 0} → Option A → Bool
is_some none = false
is_some (some a) = true

module _ (q : Oci) where
  -- What NEW leaves.
  blank : Session q
  blank = record {
    env = none;
    err = none;
    svc = none;
    usr = none;
    srv = none;
    txnhp = none;
    erb = lit "";
    timer = record { timeout = pos 0; countdown = pos 0; running = false };
    last_error = Status.success;
    rows_changed = 0;
    watchdog = none;
  }

  -- `_getErrorDescription`, and `_getLastError`
  unfoldable pub get_last_error : Session q → q.World → Text × Session q
  get_last_error C w =
      let got = q.error_get C.err 152 w in
      (message C.last_error got C.erb, record C { erb = error_buffer C.last_error got C.erb })

  -- `//host[:port]/service`, or the service alone.
  pub connect_string : Url → Text → Text
  connect_string U servicename =
      let port : Text = if ltb_ℤ (pos 0) U.port then lit ":" ++ q.print_int U.port else lit "" in
      elim U.host [
        | none ↦ servicename
        | some host ↦ lit "//" ++ (host ++ (port ++ (lit "/" ++ servicename)))
      ]

  -- What a part of `_doConnect` leaves: the message where it fails, the delegate, and the fetch size where
  -- it is set on the connection.
  abbrev Connecting : Type 0
  Connecting = Option Text × Session q × q.World

  abbrev refuse : Text → Session q → q.World → Connecting
  refuse t C w = (some t, C, w)

  -- A call with a status that has to be fine, and what comes after it.
  abbrev step : Status → Session q → q.World → (Session q → q.World → Connecting) → Connecting
  step status C w rest =
      let D = record C { last_error = status } in
      let (t, E) = get_last_error D w in if is_fine status then rest D w else (some t, E, w)

  -- From `OCISessionBegin` on.
  begin_session : Url → Session q → q.World → Connecting
  unfolding get_last_error
  begin_session U C w =
      let sysdba = is_equal (parameter U (lit "sysdba")) (some (lit "true")) in
      let (begun, w1) = q.session_begin C.svc C.err C.usr sysdba w in
      step begun C w1 (λ D v. (none, D, (q.set_session D.svc D.usr D.err v).1))

  -- The name and the password of the session, once there is one.
  log_on : Url → Target → Session q → q.World → Connecting
  unfolding get_last_error begin_session
  log_on U T C w =
      let (named, w1) = q.set_username C.usr T.username C.err w in
      step named C w1 (λ D v.
        let (allowed, v1) = q.set_password D.usr T.password D.err v in
        step allowed D v1 (begin_session U))

  -- From `OCIServerAttach` on.
  attach : Url → Target → Session q → q.World → Connecting
  unfolding get_last_error log_on connect_string
  attach U T C w =
      let (attached, w1) = q.server_attach C.srv C.err (connect_string U T.servicename) w in
      step attached C w1 (λ D v.
        let (served, v1) = q.set_server D.svc D.srv D.err v in
        step served D v1 (λ E u.
          let ((status, usr), u1) = q.alloc_usr E.env u in
          step status (record E { usr = usr }) u1 (log_on U T)))

  -- With the fetch size that is set on the connection, and where an exception may be thrown.
  abbrev Attempted : Type 0
  Attempted = Result (Option ℤ × Option Text × Session q) × q.World

  abbrev with_rows : Option ℤ → Connecting → Attempted
  with_rows rows (t, C, w) = (ok (rows, t, C), w)

  -- The fetch size that the URL gives, if it does, and then the connection.
  fetch_and_attach : Url → Target → Session q → q.World → Attempted
  unfolding attach
  fetch_and_attach U T C w = elim (parameter U (lit "fetch-size")) [
    | none ↦ with_rows none (attach U T C w)
    | some t ↦ elim (parse_int (some t)) [
      | err e ↦ (err e, w)
      | ok rows ↦
          if ltb_ℤ rows (pos 1)
          then with_rows none (refuse (lit "invalid fetch-size") C w)
          else with_rows (some rows) (attach U T C w)
    ]
  ]

  -- The handles, each of which has to be made.
  make_handles : Session q → q.World → Connecting
  make_handles C w =
      let ((failed, env), w1) = q.env_create w in
      let D = record C { env = env } in
      let ((s1, e), w2) = q.alloc_err env w1 in
      let E = record D { err = e } in
      let ((s2, srv), w3) = q.alloc_srv env w2 in
      let F = record E { srv = srv } in
      let ((s3, svc), w4) = q.alloc_svc env w3 in
      let G = record F { svc = svc } in
      if failed
      then refuse (lit "Create a OCI environment failed") D w1
      else if is_success s1
      then if is_success s2
        then if is_success s3
          then (none, G, w4)
          else refuse (lit "Allocating service handle failed") G w4
        else refuse (lit "Allocating server context failed") F w3
      else refuse (lit "Allocating error handler failed") E w2

  -- `_doConnect`. A fetch size that is not a number throws.
  pub do_connect : Url → Session q → q.World → Attempted
  unfolding fetch_and_attach make_handles
  do_connect U C w = elim (target U) [
    | inr t ↦ with_rows none (refuse t C w)
    | inl T ↦
        let (refused, D, w') = make_handles C w in
        elim refused [ some t ↦ with_rows none (refuse t D w') | none ↦ fetch_and_attach U T D w' ]
  ]

  pub free : Session q → q.World → q.World
  free C w =
      let w1 = if is_some C.svc then q.session_end C.svc C.err C.usr w else w in
      let w2 = if is_some C.srv then q.server_detach C.srv C.err w1 else w1 in
      let w3 = if is_some C.env then q.env_free C.env w2 else w2 in
      elim C.watchdog [ none ↦ w3 | some t ↦ q.thread_join t w3 ]

  -- `_new`: the delegate, the message and the fetch size that is set.
  pub new : Url → q.World → Result (Option (Session q) × Option Text × Option ℤ) × q.World
  unfolding do_connect blank free
  new U w =
      let (r, w') = do_connect U blank w in
      elim r [
        | err e ↦ (err e, w')
        | ok (rows, refused, C) ↦ elim refused [
          | some t ↦ (ok (none, some t, rows), free C w')
          | none ↦
              let timer = C.timer in
              let D = record C { txnhp = none; timer = record timer { running = false } } in
              (ok (some D, none, rows), w')
        ]
      ]
