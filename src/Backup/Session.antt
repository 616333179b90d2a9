-- ===== src/Backup/Session.antt =====
-- The upload of scripts/backup_dropbox.py against the protocol of an upload session.
use rawrz.Prelude.{
  ℕ, ◌≡◌, refl, sym, ap, ◌∙◌, Bool, true, false, ◌&&◌, Option, none, some, List, [], ◌∷◌, ◌++◌,
  String, length, gather, if◌then◌else◌, ◌==◌, nat_eq, string_eq, arith, length-append,
}
use mathlib.Core.List.{append_assoc, append-nil}
use rawrz.Prelude.Result.{Result}
use rawrz.Exec.{◌>>=◌, ◌>>◌, pure, raise}
use rawrz.Exec.Ends.{Returned, Returned-bind, Keeps-Returned}
use rawrz.Backup.{
  Bytes, Commit, Request, start, append, finish, Reply, Response, unreachable, answered, Env, Host,
  World, Run, is_transient, is_denied, retry_backoff, exit_1, exit_2,
}
use rawrz.Backup.Kept.{On, LogIs, get_token-Keeps}
use rawrz.Backup.Upload.{
  noted, sleep, send, after_send, post_with_waits, finish_session, send_rest, send_session,
  open_session, upload_session_stream, commit_to, field_of,
}

-- A session: its id and the bytes that it has, and what they were committed as.
pub data Session : Type 0 where
  closed : Session
  opened : String → Bytes → Session
  committed : Commit → Bytes → Session
  refused : Session

abbrev pub opened_by : Option String → Bytes → Session
opened_by none bytes = refused
opened_by (some id) bytes = opened id bytes

-- An append and a finish name the session and the number of bytes that it has.
abbrev pub after : Session → Request → Reply → Session
after closed (start bytes) r = opened_by r.session_id bytes
after (opened id bytes) (append name offset more) r =
    if (name == id) && (offset == length bytes) then opened id (bytes ++ more) else refused
after (opened id bytes) (finish name offset commit more) r =
    if (name == id) && (offset == length bytes) then committed commit (bytes ++ more) else refused
after _ _ r = refused

-- The session after the requests of a log, whose last one stands first.
abbrev pub replay : List (Request × Reply) → Session
replay [] = closed
replay ((q, r) ∷ log) = after (replay log) q r

eq_self : (s : String) → (s == s) ≡ true
eq_self s = ground arith

nat_eq_self : (n : ℕ) → (n == n) ≡ true
nat_eq_self n = ground arith

after-append :
    (id : String) (bytes more : Bytes) (r : Reply)
    → after (opened id bytes) (append id (length bytes) more) r ≡ opened id (bytes ++ more)
after-append id bytes more r = rw (eq_self id, nat_eq_self (length bytes)) refl

after-finish :
    (id : String) (commit : Commit) (bytes more : Bytes) (r : Reply)
    → after (opened id bytes) (finish id (length bytes) commit more) r
      ≡ committed commit (bytes ++ more)
after-finish id commit bytes more r = rw (eq_self id, nat_eq_self (length bytes)) refl

-- One request more in the log.
replay_more :
    (q : Request) (r : Reply) (log log' : List (Request × Reply)) (s t : Session)
    → log' ≡ (q, r) ∷ log
    → replay log ≡ s
    → after s q r ≡ t
    → replay log' ≡ t
replay_more q r log log' s t h e k = ap replay h ∙ ap (λ u. after u q r) e ∙ k

module _ (H : Host) where
  abbrev Logged : Request → List (Request × Reply) → Reply → World H → Type 0
  Logged q log r v = v.log ≡ (q, r) ∷ log

  -- Another try, if there is one, from a log that is still the old one.
  again-Logged :
      (q : Request) (log : List (Request × Reply)) (again : Run H Reply) (wait : ℕ) (w : World H)
      → ((v : World H) → v.log ≡ log → Returned (Logged q log) (again v))
      → w.log ≡ log
      → Returned (Logged q log) ((sleep H wait >> again) w)
  unfolding ◌>>=◌ sleep
  again-Logged q log again wait w h e = h _ e

  unhandled-Logged :
      (q : Request) (log : List (Request × Reply)) (again : Run H Reply) (wait : ℕ)
      (transient denied : Bool) (w : World H)
      → ((v : World H) → v.log ≡ log → Returned (Logged q log) (again v))
      → w.log ≡ log
      → Returned (Logged q log) (
          (if transient
              then (sleep H wait >> again)
              else if denied
              then raise exit_2
              else raise exit_1)
            w)
  unfolding raise
  unhandled-Logged q log again wait true denied w h e = again-Logged q log again wait w h e
  unhandled-Logged q log again wait false true w h e = tt
  unhandled-Logged q log again wait false false w h e = tt

  after_send-Logged :
      (q : Request) (log : List (Request × Reply)) (again : Run H Reply) (wait : ℕ)
      (a : Response Reply) (w : World H)
      → ((v : World H) → v.log ≡ log → Returned (Logged q log) (again v))
      → w.log ≡ noted q a log
      → Returned (Logged q log) (after_send H again wait a w)
  unfolding raise pure
  after_send-Logged q log again wait unreachable w h e = again-Logged q log again wait w h e
  after_send-Logged q log again wait (answered code (Result.err x)) w h e =
      elim (code == 200)
        as (λ b. Returned (Logged q log) (
          (if b
              then raise "ValueError"
              else if is_transient code
              then (sleep H wait >> again)
              else if is_denied code
              then raise exit_2
              else raise exit_1)
            w)) [
              | true ↦ tt
              | false ↦ unhandled-Logged q log again wait (is_transient code) (is_denied code) w h e
            ]
  after_send-Logged q log again wait (answered code (Result.ok r)) w h e =
      (elim (code == 200)
          as (λ b.
            w.log ≡ (if b then (q, r) ∷ log else log)
            → Returned (Logged q log) (
                (if b
                    then pure r
                    else if is_transient code
                    then (sleep H wait >> again)
                    else if is_denied code
                    then raise exit_2
                    else raise exit_1)
                  w)) [
                    | true ↦ λ k. k
                    | false ↦ λ k.
                        unhandled-Logged q log again wait (is_transient code) (is_denied code) w h k
                  ])
        e

  post-Logged :
      (waits : List ℕ) (token : String) (q : Request) (log : List (Request × Reply)) (w : World H)
      → w.log ≡ log
      → Returned (Logged q log) (post_with_waits H waits token q w)
  unfolding post_with_waits raise ◌>>=◌ send
  post-Logged [] token q log w e = tt
  post-Logged (wait ∷ waits) token q log w e =
      after_send-Logged q log (post_with_waits H waits token q) wait (H.post token q w.net).0 _
        (λ v h. post-Logged waits token q log v h) (ap (noted q (H.post token q w.net).0) e)

  -- The upload has the whole archive.
  abbrev pub Stored : Commit → Bytes → Reply × ℕ → World H → Type 0
  Stored commit bytes r v = (replay v.log ≡ committed commit bytes) × (r.1 ≡ length bytes)

  finish-Stored :
      (token id : String) (commit : Commit) (bytes payload : Bytes) (w : World H)
      → replay w.log ≡ opened id bytes
      → Returned
          (Stored commit (bytes ++ payload))
          (finish_session H token id commit (length bytes) (length bytes) payload w)
  unfolding finish_session pure
  finish-Stored token id commit bytes payload w e =
      Returned-bind _ _ _ _ w
        (post-Logged retry_backoff token (finish id (length bytes) commit payload) w.log w refl)
        (λ r v h. (
          replay_more _ r w.log v.log _ _ h e (after-finish id commit bytes payload r),
          sym (length-append bytes payload),
        ))

  rest-Stored :
      (token id : String) (commit : Commit) (bytes held : Bytes) (chunks : List Bytes) (w : World H)
      → replay w.log ≡ opened id bytes
      → Returned
          (Stored commit (bytes ++ (held ++ gather (λ c. c) chunks)))
          (send_rest H token id commit (length bytes) (length bytes) held chunks w)
  unfolding send_rest
  rest-Stored token id commit bytes held [] w e =
      rw (append-nil held) (finish-Stored token id commit bytes held w e)
  rest-Stored token id commit bytes held (peek ∷ chunks) w e =
      rw (← length-append bytes held, ← append_assoc bytes held (peek ++ gather (λ c. c) chunks))
        (Returned-bind _ _ _ _ w
          (post-Logged retry_backoff token (append id (length bytes) held) w.log w refl)
          (λ r v h.
            rest-Stored token id commit (bytes ++ held) peek chunks v
              (replay_more _ r w.log v.log _ _ h e (after-append id bytes held r))))

  session-Stored :
      (token id : String) (commit : Commit) (bytes : Bytes) (chunks : List Bytes) (w : World H)
      → replay w.log ≡ opened id bytes
      → Returned
          (Stored commit (bytes ++ gather (λ c. c) chunks))
          (send_session H token id commit (length bytes) chunks w)
  unfolding send_session
  session-Stored token id commit bytes [] w e = finish-Stored token id commit bytes [] w e
  session-Stored token id commit bytes (held ∷ chunks) w e =
      rest-Stored token id commit bytes held chunks w e

  opened-Stored :
      (token : String) (commit : Commit) (bytes : Bytes) (chunks : List Bytes) (o : Option String)
      (w : World H)
      → replay w.log ≡ opened_by o bytes
      → Returned
          (Stored commit (bytes ++ gather (λ c. c) chunks))
          ((field_of H o >>= λ id. send_session H token id commit (length bytes) chunks) w)
  unfolding ◌>>=◌ raise pure
  opened-Stored token commit bytes chunks none w e = tt
  opened-Stored token commit bytes chunks (some id) w e =
      session-Stored token id commit bytes chunks w e

  open_session-Stored :
      (token : String) (commit : Commit) (chunks : List Bytes) (w : World H)
      → w.log ≡ []
      → Returned (Stored commit (gather (λ c. c) chunks)) (open_session H token commit chunks w)
  unfolding raise
  open_session-Stored token commit [] w e = tt
  open_session-Stored token commit ([] ∷ chunks) w e = tt
  open_session-Stored token commit ((b ∷ bs) ∷ chunks) w e =
      Returned-bind _ _ _ _ w (post-Logged retry_backoff token (start (b ∷ bs)) w.log w refl)
        (λ r v h.
          opened-Stored token commit (b ∷ bs) chunks r.session_id v
            (replay_more _ r w.log v.log closed _ h (ap replay e) refl))

  -- An upload that returns, from an empty log.
  pub upload-Stored :
      (env : Env) (chunks : List Bytes) (path : String) (overwrite : Bool) (w : World H)
      → w.log ≡ []
      → Returned
          (Stored (commit_to path overwrite) (gather (λ c. c) chunks))
          (upload_session_stream H env chunks path overwrite w)
  unfolding upload_session_stream
  upload-Stored env chunks path overwrite w e =
      Returned-bind _ _ _ _ w
        (Keeps-Returned (On H (LogIs [])) _ (get_token-Keeps H (LogIs []) env) w e)
        (λ token v h. open_session-Stored token (commit_to path overwrite) chunks v h)
