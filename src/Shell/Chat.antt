-- ===== src/Shell/Chat.antt =====
-- What a typed line of the chat of nevod.py does.
use text.Mathlib.TextLemmas.{append_assoc}
use mathlib.Core.List
use zki_nevod.Base.{
  ◌⊎◌, inl, inr, String, ◌<>◌, ◌≡◌, refl, sym, ap, ◌∙◌, some, [], ◌∷◌, ◌++◌, eq_refl,
}
use zki_nevod.Base.Outcome.{Result, ok}
use zki_nevod.Base.Effects.{pure, ◌>>◌}
use zki_nevod.Base.Dict
use zki_nevod.Base.Dict.{Dict, get-put}
use zki_nevod.Bytes.{Bytes, hex, encode}
use zki_nevod.Strings.Laws.{drop_prefix-append, split_once-append, colon_space}
use zki_nevod.Strings.Words.{strip_word, EndsInText, word-EndsInText, append-EndsInText}
use zki_nevod.Router.{split_at}
use zki_nevod.Router.Address.{HasNoAt, split_at-join, split_at-plain}
use zki_nevod.Client
use zki_nevod.Client.Sending.{IsSending, signed_message, send-signed_message}
use zki_nevod.Host.{Socket}
use zki_nevod.Crypto.{Encrypted}
use zki_nevod.Protocol.{raw, pack}
use zki_nevod.Client.{Client, ClientState, wrote}
use zki_nevod.Shell.{
  Contact, echo, ShellState, Flow, go_on, print, on_client, report, split_addr_at, split_addr,
  put_contact, save_contact, add_contact, known_or, recipient_of, send_to, say, add_or_say,
  read_line,
}
use zki_nevod.Shell.Lines.{
  adding, saying, IsWord, IsKey, read_stripped-space, read_line-stripped, enc_pub_of-hex,
  hex-IsWord, split_three, slash_begins, not_adding, word-BeginsInText,
}

-- An address in the chat: "cell@node", or a cell alone, at the node of the client.
abbrev pub Addresses : String → String → String → String → Type 0
Addresses addr default_node_id cell node =
    HasNoAt cell × ((addr ≡ cell <> ("@" <> node)) ⊎ ((addr ≡ cell) × (node ≡ default_node_id)))

split_addr-Addresses :
    (addr default_node_id cell node : String)
    → Addresses addr default_node_id cell node
    → split_addr addr default_node_id ≡ (cell, node)
unfolding split_addr split_addr_at
split_addr-Addresses addr default_node_id cell node (plain, inl at) =
    rw (ap split_at at ∙ split_at-join cell node plain) refl
split_addr-Addresses addr default_node_id cell node (plain, inr (alone, home)) =
    rw (ap split_at alone ∙ split_at-plain cell plain) (ap (λ p. p) (rw (alone, home) refl))

abbrev with_contact : String → Contact → ShellState → ShellState
with_contact alias c s = record s {
  contacts = Dict.put alias c s.contacts;
  output = s.output ++ echo ("  saved: " <> alias) ∷ [];
}

-- The end of a line that was typed into the chat after the client sent a text.
said : String → Result (Unit {0}) × ClientState → ShellState → Result Flow × ShellState
said alias (r, t) s = (do report r; pure go_on) (record s { client = t })

module _ (K : Client) (alias : String) (named : IsWord alias) where
  read_line-adding :
      (addr cell node : String) (key : Bytes) (s : ShellState)
      → IsWord addr
      → IsKey key
      → Addresses addr s.client.node_id cell node
      → read_line K (adding alias addr key <> "\n") s ≡ (
        ok go_on,
        with_contact alias (record { cell_id = cell; node_id = node; enc_pub = key }) s,
      )
  unfolding add_or_say add_contact save_contact put_contact print
  read_line-adding addr cell node key s placed keyed addressed =
      let rest = alias <> (" " <> (addr <> (" " <> hex key))) in
      let (ne, white) = hex-IsWord key keyed in
      read_line-stripped K "/add " rest s slash_begins (
        append-EndsInText alias _ (
          append-EndsInText " " _ (
            append-EndsInText addr _
              (append-EndsInText " " _ (word-EndsInText (hex key) ne white)))))
      ∙ read_stripped-space K (adding alias addr key) "/add" rest s (append_assoc "/add" " " rest)
      ∙ rw
          (
            drop_prefix-append "/add " rest,
            split_three alias addr (hex key) named placed (hex-IsWord key keyed),
            split_addr-Addresses addr s.client.node_id cell node addressed,
            enc_pub_of-hex key keyed,
          )
          refl

  read_line-saying :
      (text : String) (c : Contact) (s : ShellState)
      → EndsInText text
      → Dict.get alias s.contacts ≡ some c
      → read_line K (saying alias text <> "\n") s
        ≡ said alias (Client.send K c.cell_id c.node_id c.enc_pub (encode text) s.client) s
  unfolding add_or_say say recipient_of known_or send_to on_client said
  read_line-saying text c s ends known =
      read_line-stripped K alias (": " <> text) s (word-BeginsInText alias named)
        (append-EndsInText ": " text ends)
      ∙ read_stripped-space K (saying alias text) (alias <> ":") text s
          (ap (λ t. alias <> t) (colon_space text) ∙ sym (append_assoc alias ":" (" " <> text)))
      ∙ rw
          (
            not_adding alias text named.1,
            split_once-append alias text named.1,
            strip_word alias named.1,
            known,
          )
          refl

  said-ok :
      (x : Result (Unit {0}) × ClientState) (s : ShellState)
      → x.0 ≡ ok tt
      → ((said alias x s).0 ≡ ok go_on)
        × ((said alias x s).1.client ≡ x.1)
        × ((said alias x s).1.output ≡ s.output ++ echo "  [sent]" ∷ [])
  unfolding said report print
  said-ok x s h = rw h (refl, refl, refl)

  -- A line "/add alias address key" and a line "alias: text" behind it, each with its end, make the client
  -- write one message to its websocket, the text encrypted to the key, in a packet that the cell signed
  -- for "cell@node", where the address is this text, or the cell alone and the node that of the client,
  -- and print that the contact was saved and the text sent; if the alias and the address are words, the
  -- name of the cell has no at sign, the key is the hexadecimal text of 32 bytes, the text is not empty
  -- and does not end in white space, the client is connected, the encryption succeeds and the websocket
  -- takes what it is given.
  pub saying-adding :
      (addr cell node text : String) (key : Bytes) (s : ShellState) (ws : Socket) (e : Encrypted)
      → IsWord addr
      → IsKey key
      → Addresses addr s.client.node_id cell node
      → EndsInText text
      → IsSending K s.client ws key (encode text) e
      → let x =
          read_line K
            (saying alias text <> "\n")
            (read_line K (adding alias addr key <> "\n") s).1 in
        (x.0 ≡ ok go_on)
        × (x.1.client.trace
            ≡ s.client.trace
              ++ wrote ws (pack K.codec (raw (signed_message K s.client (cell <> ("@" <> node)) e)))
                ∷ [])
        × (x.1.output ≡ s.output ++ echo ("  saved: " <> alias) ∷ echo "  [sent]" ∷ [])
  saying-adding addr cell node text key s ws e placed keyed addressed ends sending =
      let c : Contact = record { cell_id = cell; node_id = node; enc_pub = key } in
      let (sent, wrote_it) =
        send-signed_message K s.client ws cell node key (encode text) e sending in
      let (goes_on, kept, told) =
        said-ok (Client.send K cell node key (encode text) s.client) (with_contact alias c s)
          sent in
      rw
        (
          read_line-adding addr cell node key s placed keyed addressed,
          read_line-saying text c (with_contact alias c s) ends
              (get-put alias alias c s.contacts ∙ rw (eq_refl alias) refl),
        )
        (
          goes_on,
          ap (λ t. t.trace) kept ∙ wrote_it,
          told
              ∙ List.append_assoc s.output (echo ("  saved: " <> alias) ∷ [])
                  (echo "  [sent]" ∷ []),
        )
