-- ===== src/Shell/Sends.antt =====
-- What a typed line of the chat of nevod.py makes the client do.
use zki_nevod.Base.{
  String, ◌≡◌, ◌⊎◌, inl, inr, refl, sym, subst, ◌∙◌, Bool, true, false, Option, none, some, List,
  [], ◌∷◌, if◌then◌else◌, str_eq, is_empty, length,
}
use zki_nevod.Base.Outcome.{Result, ok, err}
use zki_nevod.Base.Effects.{Exec, pure, continue, ◌>>=◌}
use zki_nevod.Base.Dict
use zki_nevod.Base.Dict.{Dict, AllEntries-get}
use zki_nevod.Bytes.{Bytes, encode}
use zki_nevod.Strings.{split, strip, drop_prefix, split_once}
use zki_nevod.Client
use zki_nevod.Client.{Client, ClientState}
use zki_nevod.Shell.{
  Contact, Output, ShellState, go_on, Recipient, reached, bad_key, unknown, print, on_client,
  split_addr, enc_pub_of, is_quit, print_contacts, list_contacts, put_contact, save_contact,
  add_contact, with_key, direct, known_or, recipient_of, report, send_to, say, add_or_say, command,
  read_stripped, read_line,
}
use zki_nevod.Shell.Contacts.{AreContacts, IsContact, enc_pub_of-length}

-- The client is as before.
abbrev IsIdle : {A : Type 0} → Exec ShellState A → Type 0
IsIdle m = (s : ShellState) → (m s).1.client ≡ s.client

print-IsIdle : (o : Output) → IsIdle (print o)
unfolding print
print-IsIdle o s = refl

continue-client :
    {A B : Type 0} (r : Result A) (f : A → Exec ShellState B) (s : ShellState)
    → ((a : A) → IsIdle (f a))
    → (continue r f s).1.client ≡ s.client
continue-client (ok a) f s h = h a s
continue-client (err e) f s h = refl

bind-IsIdle :
    {A B : Type 0} (m : Exec ShellState A) (f : A → Exec ShellState B)
    → IsIdle m
    → ((a : A) → IsIdle (f a))
    → IsIdle (m >>= f)
bind-IsIdle m f h rest s = continue-client (m s).0 f (m s).1 rest ∙ h s

print_contacts-IsIdle : (d : Dict Contact) → IsIdle (print_contacts d)
unfolding print_contacts
print_contacts-IsIdle [] = λ s. refl
print_contacts-IsIdle ((alias, c) ∷ d) =
    bind-IsIdle _ _ (print-IsIdle _) (λ _. print_contacts-IsIdle d)

list_contacts-IsIdle : (d : Dict Contact) → IsIdle (list_contacts d)
unfolding list_contacts
list_contacts-IsIdle [] = print-IsIdle _
list_contacts-IsIdle (c ∷ d) = print_contacts-IsIdle (c ∷ d)

save_contact-IsIdle :
    (alias : String) (addr : String × String) (r : Result Bytes)
    → IsIdle (save_contact alias addr r)
unfolding save_contact put_contact print
save_contact-IsIdle alias addr (err e) s = refl
save_contact-IsIdle alias (cell, node) (ok k) s = refl

add_contact-IsIdle : (parts : List String) → IsIdle (add_contact parts)
unfolding add_contact print
add_contact-IsIdle [] s = refl
add_contact-IsIdle (alias ∷ []) s = refl
add_contact-IsIdle (alias ∷ addr ∷ []) s = refl
add_contact-IsIdle (alias ∷ addr ∷ h ∷ []) s =
    save_contact-IsIdle alias (split_addr addr s.client.node_id) (enc_pub_of h) s
add_contact-IsIdle (alias ∷ addr ∷ h ∷ more ∷ parts) s = refl

report-IsIdle : (r : Result (Unit {0})) → IsIdle (report r)
unfolding report print
report-IsIdle (ok a) s = refl
report-IsIdle (err e) s = refl

-- A recipient has a key of 32 bytes.
abbrev IsReachable : Recipient → Type 0
IsReachable (reached c) = length c.enc_pub ≡ 32
IsReachable (bad_key e) = Unit
IsReachable unknown = Unit

with_key-IsReachable :
    (addr : String × String) (r : Result Bytes)
    → ((k : Bytes) → r ≡ ok k → length k ≡ 32)
    → IsReachable (with_key addr r)
unfolding with_key
with_key-IsReachable addr (err e) h = tt
with_key-IsReachable (cell, node) (ok k) h = h k refl

direct-IsReachable :
    (node : String) (parts : Option (String × String)) → IsReachable (direct node parts)
unfolding direct
direct-IsReachable node none = tt
direct-IsReachable node (some (addr, key)) =
    with_key-IsReachable (split_addr addr node) (enc_pub_of (strip key))
      (λ k. enc_pub_of-length (strip key))

known_or-IsReachable :
    (o : Option Contact) (r : Recipient)
    → ((c : Contact) → o ≡ some c → length c.enc_pub ≡ 32)
    → IsReachable r
    → IsReachable (known_or o r)
unfolding known_or
known_or-IsReachable none r h hr = hr
known_or-IsReachable (some c) r h hr = h c refl

recipient_of-IsReachable :
    (head : String) (s : ShellState) → AreContacts s → IsReachable (recipient_of head s)
unfolding recipient_of
recipient_of-IsReachable head s h =
    known_or-IsReachable (Dict.get head s.contacts) (direct s.client.node_id (split_once " " head))
      (λ c found. AllEntries-get IsContact head s.contacts h found)
      (direct-IsReachable s.client.node_id (split_once " " head))

module _ (K : Client) where
  -- The client is as before, or it sent a text to a cell under a key of 32 bytes.
  abbrev pub HasSent : ShellState → ShellState → Type 0
  HasSent s t =
      (t.client ≡ s.client)
      ⊎ ((c : Contact) × (text : String) × (length c.enc_pub ≡ 32)
          × (t.client ≡ (Client.send K c.cell_id c.node_id c.enc_pub (encode text) s.client).1))

  send_to-HasSent :
      (head text : String) (r : Recipient) (s : ShellState)
      → IsReachable r
      → HasSent s (send_to K head text r s).1
  unfolding send_to on_client print
  send_to-HasSent head text unknown s h = inl refl
  send_to-HasSent head text (bad_key e) s h = inl refl
  send_to-HasSent head text (reached c) s h = inr (
    c,
    text,
    h,
    report-IsIdle (Client.send K c.cell_id c.node_id c.enc_pub (encode text) s.client).0 _,
  )

  say-HasSent :
      (parts : Option (String × String)) (s : ShellState)
      → AreContacts s
      → HasSent s (say K parts s).1
  unfolding say print
  say-HasSent none s h = inl refl
  say-HasSent (some (head, text)) s h =
      send_to-HasSent (strip head) text (recipient_of (strip head) s) s
        (recipient_of-IsReachable (strip head) s h)

  add_or_say-HasSent :
      (line : String) (rest : Option String) (s : ShellState)
      → AreContacts s
      → HasSent s (add_or_say K line rest s).1
  unfolding add_or_say
  add_or_say-HasSent line (some rest) s h = inl (add_contact-IsIdle (split rest) s)
  add_or_say-HasSent line none s h = say-HasSent (split_once ": " line) s h

  HasSent-if :
      (b : Bool) {A : Type 0} (m n : Exec ShellState A) (s : ShellState)
      → HasSent s (m s).1
      → HasSent s (n s).1
      → HasSent s ((if b then m else n) s).1
  HasSent-if true m n s hm hn = hm
  HasSent-if false m n s hm hn = hn

  command-HasSent :
      (line : String) (s : ShellState) → AreContacts s → HasSent s (command K line s).1
  unfolding command
  command-HasSent line s h =
      HasSent-if (str_eq line "/contacts") (list_contacts s.contacts)
        (add_or_say K line (drop_prefix "/add " line)) s (inl (list_contacts-IsIdle s.contacts s))
        (add_or_say-HasSent line (drop_prefix "/add " line) s h)

  continue-state : (r : Result (Unit {0})) (t : ShellState) → (continue r (λ _. pure go_on) t).1 ≡ t
  continue-state (ok a) t = refl
  continue-state (err e) t = refl

  read_stripped-HasSent :
      (line : String) (s : ShellState) → AreContacts s → HasSent s (read_stripped K line s).1
  unfolding read_stripped
  read_stripped-HasSent line s h = HasSent-if (is_empty line) _ _ s (inl refl) (
      HasSent-if (is_quit line) _ _ s (inl refl) (
        subst (HasSent s) (sym (continue-state (command K line s).0 (command K line s).1))
          (command-HasSent line s h)))

  -- A line that is typed into the chat leaves the client as it was, or makes it send one text to one
  -- cell, under a key of 32 bytes, if the keys in the contact book have 32 bytes.
  pub read_line-HasSent :
      (line : String) (s : ShellState) → AreContacts s → HasSent s (read_line K line s).1
  unfolding read_line
  read_line-HasSent line s h =
      HasSent-if (is_empty line) _ _ s (inl refl) (read_stripped-HasSent (strip line) s h)
