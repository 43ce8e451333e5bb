-- ===== src/Shell/Contacts.antt =====
-- The contact book of the chat of nevod.py: what every key in it is.
use zki_nevod.Base.{
  String, ◌≡◌, refl, Option, none, some, List, [], ◌∷◌, if◌then◌else◌, str_eq, is_empty, length,
  ◌==◌, ==_iff, Bool-cases, inl, inr, subst,
}
use zki_nevod.Base.Outcome.{Result, ok, err, value_error, ok_injective, >>=-eq-ok}
use zki_nevod.Base.Effects.{Exec}
use zki_nevod.Base.Dict.{Dict, AllEntries, AllEntries-put}
use zki_nevod.Base.Keeps.{
  Keeps, Any, Keeps-Any, Keeps-pure, Keeps-raise, Keeps-if, Keeps-bind, Keeps-after,
}
use zki_nevod.Bytes.{Bytes, from_hex, encode}
use zki_nevod.Strings.{split, strip, drop_prefix, split_once}
use zki_nevod.Client
use zki_nevod.Client.{Client, ClientState}
use zki_nevod.Shell.{
  Contact, Output, ShellState, Flow, go_on, leave, Input, typed, interrupted, failed, Turn,
  Recipient, reached, bad_key, unknown, print, on_client, split_addr, enc_pub_of, is_quit,
  print_contacts, list_contacts, put_contact, save_contact, add_contact, recipient_of, report,
  is_connected, send_to, say, add_or_say, command, read_stripped, read_line, read_input, follow,
  take_turn, repl,
}

-- a key of the right length
abbrev pub IsContact : String → Contact → Type 0
IsContact alias c = length c.enc_pub ≡ 32

abbrev pub AreContacts : ShellState → Type 0
AreContacts s = AllEntries IsContact s.contacts

abbrev KeepsContacts : {A : Type 0} → Exec ShellState A → Type 0
KeepsContacts m = Keeps AreContacts Any m

checked_length :
    (b : Bytes) {k : Bytes}
    → (if length b == 32 then ok b else err value_error) ≡ ok k
    → length k ≡ 32
checked_length b {k} h = elim (Bool-cases (length b == 32)) [
  | inl same ↦
      subst (λ x. length x ≡ 32)
        (ok_injective (subst (λ t. (if t then ok b else err value_error) ≡ ok k) same h))
        ((==_iff (length b) 32).0 same)
  | inr other ↦ absurd (cc (subst (λ t. (if t then ok b else err value_error) ≡ ok k) other h))
]

pub enc_pub_of-length : (h : String) {k : Bytes} → enc_pub_of h ≡ ok k → length k ≡ 32
unfolding enc_pub_of
enc_pub_of-length h done =
    let (b, read, rest) = >>=-eq-ok (from_hex h) _ done in checked_length b rest

print-Keeps : (o : Output) → KeepsContacts (print o)
unfolding print
print-Keeps o = Keeps-Any (print o) (λ s h. h)

on_client-Keeps : {A : Type 0} (m : Exec ClientState A) → KeepsContacts (on_client m)
unfolding on_client
on_client-Keeps m = Keeps-Any (on_client m) (λ s h. h)

print_contacts-Keeps : (d : Dict Contact) → KeepsContacts (print_contacts d)
unfolding print_contacts
print_contacts-Keeps [] = Keeps-pure tt tt
print_contacts-Keeps ((alias, c) ∷ d) =
    Keeps-bind _ _ (print-Keeps _) (λ _ _. print_contacts-Keeps d)

list_contacts-Keeps : (d : Dict Contact) → KeepsContacts (list_contacts d)
unfolding list_contacts
list_contacts-Keeps [] = print-Keeps _
list_contacts-Keeps (c ∷ d) = print_contacts-Keeps (c ∷ d)

put_contact-Keeps :
    (alias : String) (c : Contact) → length c.enc_pub ≡ 32 → KeepsContacts (put_contact alias c)
unfolding put_contact
put_contact-Keeps alias c h =
    Keeps-Any (put_contact alias c) (λ s. AllEntries-put IsContact alias c s.contacts h)

save_contact-Keeps :
    (alias : String) (addr : String × String) (r : Result Bytes)
    → ((k : Bytes) → r ≡ ok k → length k ≡ 32)
    → KeepsContacts (save_contact alias addr r)
unfolding save_contact
save_contact-Keeps alias addr (err e) h = print-Keeps _
save_contact-Keeps alias (cell, node) (ok k) h =
    Keeps-bind (put_contact alias (record { cell_id = cell; node_id = node; enc_pub = k })) _
      (put_contact-Keeps alias (record { cell_id = cell; node_id = node; enc_pub = k }) (h k refl))
      (λ _ _. print-Keeps _)

add_contact-Keeps : (parts : List String) → KeepsContacts (add_contact parts)
unfolding add_contact
add_contact-Keeps [] = record { at = (print-Keeps _).at }
add_contact-Keeps (alias ∷ []) = record { at = (print-Keeps _).at }
add_contact-Keeps (alias ∷ addr ∷ []) = record { at = (print-Keeps _).at }
add_contact-Keeps (alias ∷ addr ∷ h ∷ []) = record {
  at = λ s all.
      (save_contact-Keeps alias (split_addr addr s.client.node_id) (enc_pub_of h)
          (λ k. enc_pub_of-length h)).at
        s all;
}
add_contact-Keeps (alias ∷ addr ∷ h ∷ more ∷ parts) = record { at = (print-Keeps _).at }

report-Keeps : (r : Result (Unit {0})) → KeepsContacts (report r)
unfolding report
report-Keeps (ok a) = print-Keeps _
report-Keeps (err e) = print-Keeps _

module _ (K : Client) where
  send_to-Keeps : (head text : String) (r : Recipient) → KeepsContacts (send_to K head text r)
  unfolding send_to
  send_to-Keeps head text unknown = record { at = (print-Keeps _).at }
  send_to-Keeps head text (bad_key e) = record { at = (print-Keeps _).at }
  send_to-Keeps head text (reached c) =
      Keeps-after (on_client (Client.send K c.cell_id c.node_id c.enc_pub (encode text))) report
        (on_client-Keeps _) (λ r _. report-Keeps r)

  say-Keeps : (parts : Option (String × String)) → KeepsContacts (say K parts)
  unfolding say
  say-Keeps none = record { at = (print-Keeps _).at }
  say-Keeps (some (head, text)) = record {
    at = λ s. (send_to-Keeps (strip head) text (recipient_of (strip head) s)).at s;
  }

  add_or_say-Keeps : (line : String) (rest : Option String) → KeepsContacts (add_or_say K line rest)
  unfolding add_or_say
  add_or_say-Keeps line (some rest) = add_contact-Keeps (split rest)
  add_or_say-Keeps line none = say-Keeps (split_once ": " line)

  command-Keeps : (line : String) → KeepsContacts (command K line)
  unfolding command
  command-Keeps line = record {
    at = λ s.
        (Keeps-if (str_eq line "/contacts") (list_contacts s.contacts)
            (add_or_say K line (drop_prefix "/add " line)) (λ _. list_contacts-Keeps s.contacts)
            (λ _. add_or_say-Keeps line (drop_prefix "/add " line))).at
          s;
  }

  read_stripped-Keeps : (line : String) → KeepsContacts (read_stripped K line)
  unfolding read_stripped
  read_stripped-Keeps line =
      Keeps-if (is_empty line) _ _ (λ _. Keeps-pure go_on tt)
        λ _.
          Keeps-if (is_quit line) _ _ (λ _. Keeps-pure leave tt)
            λ _. Keeps-bind _ _ (command-Keeps line) (λ _ _. Keeps-pure go_on tt)

  read_line-Keeps : (line : String) → KeepsContacts (read_line K line)
  unfolding read_line
  read_line-Keeps line =
      Keeps-if (is_empty line) _ _ (λ _. Keeps-pure leave tt)
        (λ _. read_stripped-Keeps (strip line))

  read_input-Keeps : (i : Input) → KeepsContacts (read_input K i)
  unfolding read_input
  read_input-Keeps interrupted = Keeps-pure leave tt
  read_input-Keeps (failed e) = Keeps-raise e
  read_input-Keeps (typed line) = read_line-Keeps line

  take_turn-Keeps : (turn : Turn) → KeepsContacts (take_turn K turn)
  unfolding take_turn
  take_turn-Keeps turn =
      Keeps-bind _ _ (print-Keeps _)
        λ _ _. Keeps-bind _ _ (on_client-Keeps _) (λ _ _. read_input-Keeps turn.input)

  follow-Keeps :
      (flow : Flow) (rest : Exec ShellState (Unit {0}))
      → KeepsContacts rest
      → KeepsContacts (follow K flow rest)
  unfolding follow
  follow-Keeps leave rest h = Keeps-pure tt tt
  follow-Keeps go_on rest h = h

  repl-Keeps : (turns : List Turn) → KeepsContacts (repl K turns)
  unfolding repl
  repl-Keeps [] = record { at = λ s h. (h, tt) }
  repl-Keeps (turn ∷ turns) =
      let rest = repl-Keeps turns in
      record {
        at = λ s.
            (Keeps-bind (on_client (is_connected K s.client.ws)) _ (on_client-Keeps _)
                λ connected _.
                  Keeps-if connected _ _
                    (λ _.
                      Keeps-bind _ _ (take_turn-Keeps turn)
                        (λ flow _. follow-Keeps flow (repl K turns) rest))
                    (λ _. Keeps-pure tt tt)).at
              s;
      }

  -- Whatever is typed into the chat and whatever arrives, every key in the contact book has 32 bytes, if
  -- this holds at the beginning, where the book is empty.
  pub repl-AreContacts :
      (turns : List Turn) (s : ShellState) → AreContacts s → AreContacts (repl K turns s).1
  repl-AreContacts turns s h = ((repl-Keeps turns).at s h).0
