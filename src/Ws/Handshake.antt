-- ===== src/Ws/Handshake.antt =====
-- internal/wsconn/client.go: the handshake.
use appcenter_agent_linux.Base.{
  ◌≡◌, refl, ◌∙◌, sym, Bool, true, false, List, [], ◌∷◌, ◌++◌, if_both, Option, none, some, arith,
}
use appcenter_agent_linux.Text.{codes, same}
use appcenter_agent_linux.Api.{Error, Result, ok, err}
use appcenter_agent_linux.Ws.{
  Network, Message, Action, dialed, sent_auth, sent_hello, called_server_hello, called_connected,
  served, closed, auth_error, loop_result, serve, say_hello, check_auth, await_auth, authenticate,
  with_close, connect, connect_and_serve, before,
}

abbrev pub has_connected : List Action → Bool
has_connected [] = false
has_connected (called_connected ∷ l) = true
has_connected (dialed ∷ l) = has_connected l
has_connected (sent_auth ∷ l) = has_connected l
has_connected (sent_hello ∷ l) = has_connected l
has_connected (called_server_hello ∷ l) = has_connected l
has_connected (served ∷ l) = has_connected l
has_connected (closed ∷ l) = has_connected l

-- How far a handshake comes: nothing is done, or the connection is opened, the messages go out in
-- their order, and it is closed.
pub data IsHandshake : Option Error × List Action → Type 0 where
  no_dial : (e : Error) → IsHandshake (some e, [])
  no_auth : (e : Error) → IsHandshake (some e, dialed ∷ closed ∷ [])
  refused : (e : Error) → IsHandshake (some e, dialed ∷ sent_auth ∷ closed ∷ [])
  no_hello : (e : Error) → IsHandshake (some e, dialed ∷ sent_auth ∷ sent_hello ∷ closed ∷ [])
  greeted :
      (e : Option Error)
      → IsHandshake (
        e,
        dialed ∷ sent_auth ∷ sent_hello ∷ called_server_hello ∷ called_connected ∷ served ∷ closed
            ∷ [],
      )
  ungreeted :
      (e : Option Error)
      → IsHandshake (e, dialed ∷ sent_auth ∷ sent_hello ∷ called_connected ∷ served ∷ closed ∷ [])

module _ (net : Network) where
  serve-IsHandshake :
      (r : Result Message)
      → IsHandshake (with_close (before sent_auth (before sent_hello (serve net r))))
  unfolding serve with_close
  serve-IsHandshake (err e) = no_hello _
  serve-IsHandshake (ok m) =
      if_both
        (λ l. IsHandshake (
          loop_result net.is_done net.message_loop,
          dialed ∷ sent_auth ∷ sent_hello ∷ l ++ closed ∷ [],
        ))
        (same m.kind (codes "server.hello")) (greeted (loop_result net.is_done net.message_loop))
        (ungreeted (loop_result net.is_done net.message_loop))

  say_hello-IsHandshake :
      (o : Option Error) → IsHandshake (with_close (before sent_auth (say_hello net o)))
  unfolding say_hello with_close
  say_hello-IsHandshake (some e) = refused _
  say_hello-IsHandshake none = serve-IsHandshake net.read_hello

  check_auth-IsHandshake :
      (o : Option Error) → IsHandshake (with_close (before sent_auth (check_auth net o)))
  unfolding check_auth with_close
  check_auth-IsHandshake (some e) = refused e
  check_auth-IsHandshake none = say_hello-IsHandshake net.send_hello

  await_auth-IsHandshake :
      (r : Result Message) → IsHandshake (with_close (before sent_auth (await_auth net r)))
  unfolding await_auth with_close
  await_auth-IsHandshake (err e) = refused _
  await_auth-IsHandshake (ok m) = check_auth-IsHandshake (auth_error m)

  authenticate-IsHandshake : (o : Option Error) → IsHandshake (with_close (authenticate net o))
  unfolding authenticate with_close
  authenticate-IsHandshake (some e) = no_auth _
  authenticate-IsHandshake none = await_auth-IsHandshake net.read_auth

  connect-IsHandshake : (o : Option Error) → IsHandshake (connect net o)
  unfolding connect
  connect-IsHandshake (some e) = no_dial _
  connect-IsHandshake none = authenticate-IsHandshake net.send_auth

  has_connected-closed : (l : List Action) → has_connected (l ++ closed ∷ []) ≡ has_connected l
  has_connected-closed [] = refl
  has_connected-closed (called_connected ∷ l) = refl
  has_connected-closed (dialed ∷ l) = has_connected-closed l
  has_connected-closed (sent_auth ∷ l) = has_connected-closed l
  has_connected-closed (sent_hello ∷ l) = has_connected-closed l
  has_connected-closed (called_server_hello ∷ l) = has_connected-closed l
  has_connected-closed (served ∷ l) = has_connected-closed l
  has_connected-closed (closed ∷ l) = has_connected-closed l

  with_close-connected :
      (r : Option Error × List Action) → has_connected (with_close r).1 ≡ has_connected r.1
  unfolding with_close
  with_close-connected r = has_connected-closed r.1

  check_auth-none : (o : Option Error) → has_connected (check_auth net o).1 ≡ true → o ≡ none
  unfolding check_auth
  check_auth-none (some e) h = ground arith
  check_auth-none none h = refl

  await_auth-accepted :
      (r : Result Message)
      → has_connected (await_auth net r).1 ≡ true
      → (m : Message) × ((r ≡ ok m) × (auth_error m ≡ none))
  unfolding await_auth
  await_auth-accepted (err e) h = ground arith
  await_auth-accepted (ok m) h = (m, (refl, check_auth-none (auth_error m) h))

  authenticate-accepted :
      (o : Option Error)
      → has_connected (authenticate net o).1 ≡ true
      → (m : Message) × ((net.read_auth ≡ ok m) × (auth_error m ≡ none))
  unfolding authenticate
  authenticate-accepted (some e) h = ground arith
  authenticate-accepted none h = await_auth-accepted net.read_auth h

  connect-accepted :
      (o : Option Error)
      → has_connected (connect net o).1 ≡ true
      → (m : Message) × ((net.read_auth ≡ ok m) × (auth_error m ≡ none))
  unfolding connect
  connect-accepted (some e) h = ground arith
  connect-accepted none h =
      authenticate-accepted net.send_auth
        (sym (with_close-connected (authenticate net net.send_auth)) ∙ h)

  -- If the code calls OnConnected, the server's answer to agent.auth was read and accepted.
  pub connected_after_auth :
      has_connected (connect_and_serve net).1 ≡ true
      → (m : Message) × ((net.read_auth ≡ ok m) × (auth_error m ≡ none))
  unfolding connect_and_serve
  connected_after_auth h = connect-accepted net.dial h

  -- A connection that was opened is closed at its end, agent.auth goes out before agent.hello,
  -- server.hello is passed on before OnConnected, and a connection that ends earlier is an error.
  pub connect_and_serve-IsHandshake : IsHandshake (connect_and_serve net)
  unfolding connect_and_serve
  connect_and_serve-IsHandshake = connect-IsHandshake net.dial
