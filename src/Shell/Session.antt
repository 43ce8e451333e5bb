-- ===== src/Shell/Session.antt =====
-- The end of the chat of nevod.py: how it comes, and what it leaves.
use zki_nevod.Base.{
  ◌⊎◌, inl, inr, String, ◌<>◌, ◌≡◌, refl, Option, none, some, List, [], ◌∷◌, str_eq, is_empty,
}
use zki_nevod.Base.Outcome.{Error, Result, ok, err}
use zki_nevod.Base.Effects.{Exec, pure}
use zki_nevod.Base.Returns.{
  IsOk, Returns, Returns-pure, Returns-bind, Returns-if, RaisesOnly, Ends, Ends-weaken,
  Ends-Returns, Ends-bind, Ends-if,
}
use zki_nevod.Base.Dict.{Dict}
use zki_nevod.Bytes.{Bytes, encode}
use zki_nevod.Strings.{split, strip, drop_prefix, split_once}
use zki_nevod.Host.{Socket}
use zki_nevod.Client
use zki_nevod.Client.{
  Client, ClientState, Task, idle, scheduled, running, begin, cancel, forget, shut_socket,
  disconnect,
}
use zki_nevod.Shell.{
  Contact, Output, echo, ShellState, Flow, go_on, leave, Arrival, message, closing, Input, typed,
  interrupted, failed, Turn, Recipient, reached, bad_key, unknown, print, on_client, split_addr,
  enc_pub_of, is_quit, print_contacts, list_contacts, put_contact, save_contact, add_contact,
  recipient_of, report, is_connected, send_to, say, add_or_say, command, read_stripped, read_line,
  read_input, on_task, arrive, arrive_all, follow, take_turn, repl, finally, chat,
}

print-Returns : (o : Output) → Returns (print o)
unfolding print
print-Returns o = record { at = λ s. tt }

on_client-Returns : {A : Type 0} (m : Exec ClientState A) → Returns m → Returns (on_client m)
unfolding on_client
on_client-Returns m h = record { at = λ s. h.at s.client }

print_contacts-Returns : (d : Dict Contact) → Returns (print_contacts d)
unfolding print_contacts
print_contacts-Returns [] = Returns-pure tt
print_contacts-Returns ((alias, c) ∷ d) =
    Returns-bind _ _ (print-Returns _) (λ _. print_contacts-Returns d)

list_contacts-Returns : (d : Dict Contact) → Returns (list_contacts d)
unfolding list_contacts
list_contacts-Returns [] = print-Returns _
list_contacts-Returns (c ∷ d) = print_contacts-Returns (c ∷ d)

save_contact-Returns :
    (alias : String) (addr : String × String) (r : Result Bytes)
    → Returns (save_contact alias addr r)
unfolding save_contact put_contact
save_contact-Returns alias addr (err e) = print-Returns _
save_contact-Returns alias (cell, node) (ok k) =
    Returns-bind (put_contact alias (record { cell_id = cell; node_id = node; enc_pub = k })) _
      (record { at = λ s. tt }) (λ _. print-Returns (echo ("  saved: " <> alias)))

add_contact-Returns : (parts : List String) → Returns (add_contact parts)
unfolding add_contact
add_contact-Returns [] = record { at = (print-Returns _).at }
add_contact-Returns (alias ∷ []) = record { at = (print-Returns _).at }
add_contact-Returns (alias ∷ addr ∷ []) = record { at = (print-Returns _).at }
add_contact-Returns (alias ∷ addr ∷ h ∷ []) = record {
  at = λ s. (save_contact-Returns alias (split_addr addr s.client.node_id) (enc_pub_of h)).at s;
}
add_contact-Returns (alias ∷ addr ∷ h ∷ more ∷ parts) = record { at = (print-Returns _).at }

report-Returns : (r : Result (Unit {0})) → Returns (report r)
unfolding report
report-Returns (ok a) = print-Returns _
report-Returns (err e) = print-Returns _

-- `readline` raises this exception in one of the turns.
abbrev pub HasFailed : List Turn → Error → Type 0
HasFailed [] e = ⊥
HasFailed (turn ∷ turns) e = (turn.input ≡ failed e) ⊎ HasFailed turns e

-- The result is no exception but one that `readline` raised.
abbrev pub EndsBy : List Turn → Result (Unit {0}) → Type 0
EndsBy turns r = (r ≡ ok tt) ⊎ ((e : Error) × HasFailed turns e × (r ≡ err e))

EndsBy-of_RaisesOnly :
    (turns : List Turn) (r : Result (Unit {0})) → RaisesOnly (HasFailed turns) r → EndsBy turns r
EndsBy-of_RaisesOnly turns (ok a) h = inl refl
EndsBy-of_RaisesOnly turns (err e) h = inr (e, h, refl)

module _ (K : Client) where
  send_to-Returns : (head text : String) (r : Recipient) → Returns (send_to K head text r)
  unfolding send_to
  send_to-Returns head text unknown = record { at = (print-Returns _).at }
  send_to-Returns head text (bad_key e) = record { at = (print-Returns _).at }
  send_to-Returns head text (reached c) = record {
    at = λ s.
        let x = on_client (Client.send K c.cell_id c.node_id c.enc_pub (encode text)) s in
        (report-Returns x.0).at x.1;
  }

  say-Returns : (parts : Option (String × String)) → Returns (say K parts)
  unfolding say
  say-Returns none = record { at = (print-Returns _).at }
  say-Returns (some (head, text)) = record {
    at = λ s. (send_to-Returns (strip head) text (recipient_of (strip head) s)).at s;
  }

  add_or_say-Returns : (line : String) (rest : Option String) → Returns (add_or_say K line rest)
  unfolding add_or_say
  add_or_say-Returns line (some rest) = add_contact-Returns (split rest)
  add_or_say-Returns line none = say-Returns (split_once ": " line)

  command-Returns : (line : String) → Returns (command K line)
  unfolding command
  command-Returns line = record {
    at = λ s.
        (Returns-if (str_eq line "/contacts") (list_contacts s.contacts)
            (add_or_say K line (drop_prefix "/add " line)) (list_contacts-Returns s.contacts)
            (add_or_say-Returns line (drop_prefix "/add " line))).at
          s;
  }

  read_stripped-Returns : (line : String) → Returns (read_stripped K line)
  unfolding read_stripped
  read_stripped-Returns line = Returns-if (is_empty line) _ _ (Returns-pure go_on) (
      Returns-if (is_quit line) _ _ (Returns-pure leave)
        (Returns-bind _ _ (command-Returns line) (λ _. Returns-pure go_on)))

  read_line-Returns : (line : String) → Returns (read_line K line)
  unfolding read_line
  read_line-Returns line =
      Returns-if (is_empty line) _ _ (Returns-pure leave) (read_stripped-Returns (strip line))

  read_input-Ends : (i : Input) → Ends (λ e. i ≡ failed e) (read_input K i)
  unfolding read_input
  read_input-Ends interrupted = Ends-Returns _ _ (Returns-pure leave)
  read_input-Ends (failed e) = record { at = λ s. refl }
  read_input-Ends (typed line) = Ends-Returns _ _ (read_line-Returns line)

  is_connected-Returns : (ws : Option Socket) → Returns (is_connected K ws)
  unfolding is_connected
  is_connected-Returns none = record { at = λ s. tt }
  is_connected-Returns (some ws) = record { at = λ s. tt }

  begin-Returns : (t : Task) → Returns (begin K t)
  unfolding begin
  begin-Returns idle = record { at = λ s. tt }
  begin-Returns scheduled = record { at = λ s. tt }
  begin-Returns running = record { at = λ s. tt }

  after-IsOk : (r : Result (Unit {0})) (s : ClientState) → IsOk (Client.after K r (pure tt) s).0
  unfolding Client.after forget
  after-IsOk (ok a) s = tt
  after-IsOk (err e) s = tt

  on_task-Returns : (t : Task) (a : Arrival) → Returns (on_task K t a)
  unfolding on_task forget
  on_task-Returns idle a = record { at = λ s. tt }
  on_task-Returns scheduled closing = record { at = λ s. tt }
  on_task-Returns running closing = record { at = λ s. tt }
  on_task-Returns scheduled (message b) = record {
    at = λ s. after-IsOk (Client.receive K b s).0 (Client.receive K b s).1;
  }
  on_task-Returns running (message b) = record {
    at = λ s. after-IsOk (Client.receive K b s).0 (Client.receive K b s).1;
  }

  arrive-Returns : (a : Arrival) → Returns (arrive K a)
  unfolding arrive
  arrive-Returns a = record {
    at = λ s.
        (Returns-bind (begin K s.task) _ (begin-Returns s.task)
            (λ _. record { at = λ t. (on_task-Returns t.task a).at t })).at
          s;
  }

  arrive_all-Returns : (arrivals : List Arrival) → Returns (arrive_all K arrivals)
  unfolding arrive_all
  arrive_all-Returns [] = Returns-pure tt
  arrive_all-Returns (a ∷ arrivals) =
      Returns-bind _ _ (arrive-Returns a) (λ _. arrive_all-Returns arrivals)

  take_turn-Ends : (turn : Turn) → Ends (λ e. turn.input ≡ failed e) (take_turn K turn)
  unfolding take_turn
  take_turn-Ends turn = Ends-bind _ _ _ (Ends-Returns _ _ (print-Returns _)) λ _.
      Ends-bind _ _ _ (Ends-Returns _ _ (on_client-Returns _ (arrive_all-Returns turn.arrivals)))
        (λ _. read_input-Ends turn.input)

  follow-Ends :
      (P : Error → Type 0) (flow : Flow) (rest : Exec ShellState (Unit {0}))
      → Ends P rest
      → Ends P (follow K flow rest)
  unfolding follow
  follow-Ends P leave rest h = Ends-Returns P _ (Returns-pure tt)
  follow-Ends P go_on rest h = h

  repl-Ends : (turns : List Turn) → Ends (HasFailed turns) (repl K turns)
  unfolding repl
  repl-Ends [] = record { at = λ s. tt }
  repl-Ends (turn ∷ turns) =
      let P = HasFailed (turn ∷ turns) in
      let rest = Ends-weaken (HasFailed turns) P (repl K turns) (λ e h. inr h) (repl-Ends turns) in
      record {
        at = λ s.
            (Ends-bind P (on_client (is_connected K s.client.ws)) _
                (Ends-Returns P _ (on_client-Returns _ (is_connected-Returns s.client.ws)))
                λ connected.
                  Ends-if P connected _ _
                    (Ends-bind P _ _
                      (Ends-weaken _ P (take_turn K turn) (λ e h. inl h) (take_turn-Ends turn))
                      (λ flow. follow-Ends P flow (repl K turns) rest))
                    (Ends-Returns P _ (Returns-pure tt))).at
              s;
      }

  -- no websocket and no receive task
  abbrev pub IsLeft : ClientState → Type 0
  IsLeft s = (s.ws ≡ none) × (s.task ≡ idle)

  shut_socket-IsLeft :
      (ws : Option Socket) (s : ClientState)
      → s.ws ≡ ws
      → s.task ≡ idle
      → ((shut_socket K ws s).0 ≡ ok tt) × IsLeft (shut_socket K ws s).1
  unfolding shut_socket
  shut_socket-IsLeft none s h t = (refl, (h, t))
  shut_socket-IsLeft (some ws) s h t = (refl, (refl, t))

  cancelled : (t : Task) (s : ClientState) → s.task ≡ t → (cancel K t s).1.task ≡ idle
  unfolding cancel forget
  cancelled idle s h = h
  cancelled scheduled s h = refl
  cancelled running s h = refl

  cancel-ok : (t : Task) (s : ClientState) → (cancel K t s).0 ≡ ok tt
  unfolding cancel forget
  cancel-ok idle s = refl
  cancel-ok scheduled s = refl
  cancel-ok running s = refl

  pub disconnect-IsLeft :
      (s : ClientState) → ((disconnect K s).0 ≡ ok tt) × IsLeft (disconnect K s).1
  unfolding disconnect
  disconnect-IsLeft s = rw (cancel-ok s.task s) (
      shut_socket-IsLeft (cancel K s.task s).1.ws (cancel K s.task s).1 refl
        (cancelled s.task s refl))

  -- A chat ends, whatever is typed, whatever arrives and however sending fails, and then the client has
  -- neither a websocket nor a receive task. No exception comes out of it but one that `readline` raised.
  pub chat-IsLeft :
      (turns : List Turn) (s : ShellState)
      → EndsBy turns (chat K turns s).0 × IsLeft (chat K turns s).1.client
  unfolding chat finally print on_client
  chat-IsLeft turns s =
      let (gone, left) = disconnect-IsLeft (repl K turns s).1.client in
      rw gone (EndsBy-of_RaisesOnly turns (repl K turns s).0 ((repl-Ends turns).at s), left)
