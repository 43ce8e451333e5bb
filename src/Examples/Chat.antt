-- ===== src/Examples/Chat.antt =====
-- The theorems on the chat, the commands and the life of a node at concrete inputs.
use text.Mathlib.TextLemmas.{cons-ne-nil}
use zki_nevod.Base.{
  ◌<>◌, inl, String, Bool, ℕ, ◌≡◌, ◌⊎◌, refl, arith, true, false, some, List, [], ◌∷◌, ◌++◌,
}
use zki_nevod.Base.Outcome.{Error, Result, ok, err, value_error}
use zki_nevod.Base.Effects.{◌>>◌}
use zki_nevod.Base.Dict
use zki_nevod.Bytes.{Bytes, encode}
use zki_nevod.Strings.{is_white, strip_right, cons_kept}
use zki_nevod.Strings.Words.{EndsInText}
use zki_nevod.Client.{wrote}
use zki_nevod.Client.Sending.{IsSending, signed_message}
use zki_nevod.Protocol.{raw, pack}
use zki_nevod.Transport.{all, remove}
use zki_nevod.Value.Sample.{sample as codec}
use zki_nevod.Crypto.{Encrypted, encrypt, kdf, gen_signing, gen_encryption}
use zki_nevod.Crypto.Sample.{sample as primitives}
use zki_nevod.Identity.{NodeIdentity, generate_node, save_node}
use zki_nevod.Identity.Files.{AreKeys}
use zki_nevod.Shell.{
  ShellState, Turn, message, closing, typed, failed, echo, go_on, read_line, repl, chat,
}
use zki_nevod.Shell.Contacts.{AreContacts, repl-AreContacts}
use zki_nevod.Shell.Session.{EndsBy, IsLeft, chat-IsLeft}
use zki_nevod.Shell.Lines.{adding, saying, IsWord, IsKey}
use zki_nevod.Shell.Chat.{saying-adding}
use zki_nevod.Shell.Sends.{HasSent, read_line-HasSent}
use zki_nevod.Lifecycle.{
  Process, new_process, open_db, start, stop, stop_gossip, stop_transport, close_server,
  close_listening, end_handlers, in_state, close_storage, close_all,
}
use zki_nevod.Lifecycle.Laws.{Started, start-cases}
use zki_nevod.Commands.{Machine, init, info, init_lines, info_lines, genesis, created}
use zki_nevod.Commands.Laws.{info-init, created-genesis}
use zki_nevod.Examples.Data.{host, alice, peer, db_of, state_of}
use zki_nevod.Examples.Cells.{client, connected}

abbrev chatting : ShellState
chatting = record { client = connected; contacts = []; output = [] }

-- a line after a message that is no packet, a line that does not decode, and an order to leave
abbrev turns : List Turn
turns =
    record { arrivals = message (1 ∷ []) ∷ []; input = typed "bob: hello\n" }
    ∷ record { arrivals = []; input = failed value_error }
    ∷ record { arrivals = closing ∷ []; input = typed "/quit\n" }
    ∷ []

repl-AreContacts_example : AreContacts (repl client turns chatting).1
repl-AreContacts_example = repl-AreContacts client turns chatting tt

chat-IsLeft_example :
    EndsBy turns (chat client turns chatting).0
    × IsLeft client (chat client turns chatting).1.client
chat-IsLeft_example = chat-IsLeft client turns chatting

abbrev key : Bytes
key =
    1 ∷ 1 ∷ 1 ∷ 1 ∷ 1 ∷ 1 ∷ 1 ∷ 1 ∷ 1 ∷ 1 ∷ 1 ∷ 1 ∷ 1 ∷ 1 ∷ 1 ∷ 1 ∷ 1 ∷ 1 ∷ 1 ∷ 1 ∷ 1 ∷ 1 ∷ 1 ∷ 1
    ∷ 1 ∷ 1 ∷ 1 ∷ 1 ∷ 1 ∷ 1 ∷ 1 ∷ 1 ∷ []

key-IsKey : IsKey key
key-IsKey = (
  (
    omega arith,
    (
      omega arith,
      (
        omega arith,
        (
          omega arith,
          (
            omega arith,
            (
              omega arith,
              (
                omega arith,
                (
                  omega arith,
                  (
                    omega arith,
                    (
                      omega arith,
                      (
                        omega arith,
                        (
                          omega arith,
                          (
                            omega arith,
                            (
                              omega arith,
                              (
                                omega arith,
                                (
                                  omega arith,
                                  (
                                    omega arith,
                                    (
                                      omega arith,
                                      (
                                        omega arith,
                                        (
                                          omega arith,
                                          (
                                            omega arith,
                                            (
                                              omega arith,
                                              (
                                                omega arith,
                                                (
                                                  omega arith,
                                                  (
                                                    omega arith,
                                                    (
                                                      omega arith,
                                                      (
                                                        omega arith,
                                                        (
                                                          omega arith,
                                                          (
                                                            omega arith,
                                                            (
                                                            omega arith,
                                                            (omega arith, (omega arith, tt)),
                                                            ),
                                                          ),
                                                        ),
                                                      ),
                                                    ),
                                                  ),
                                                ),
                                              ),
                                            ),
                                          ),
                                        ),
                                      ),
                                    ),
                                  ),
                                ),
                              ),
                            ),
                          ),
                        ),
                      ),
                    ),
                  ),
                ),
              ),
            ),
          ),
        ),
      ),
    ),
  ),
  refl,
)

bob-IsWord : IsWord "bob"
unfolding is_white
bob-IsWord = ((λ h. cons-ne-nil _ _ h), (refl, (refl, (refl, tt))))

address-IsWord : IsWord "c@01"
unfolding is_white
address-IsWord = ((λ h. cons-ne-nil _ _ h), (refl, (refl, (refl, (refl, tt)))))

abbrev greeting : Encrypted
greeting = record { ephemeral_pubkey = 7 ∷ []; nonce = 7 ∷ []; ciphertext = encode "hello" }

greeting-IsSending : IsSending client connected 4 key (encode "hello") greeting
unfolding encrypt primitives kdf
greeting-IsSending = record {
  connected = refl;
  is_open = refl;
  encrypted = refl;
  takes = λ n m. refl;
}

hello-EndsInText : EndsInText "hello"
unfolding strip_right cons_kept is_white
hello-EndsInText = (refl, λ h. cons-ne-nil _ _ h)

saying-adding_example :
    let x =
      read_line client
        (saying "bob" "hello" <> "\n")
        (read_line client (adding "bob" "c@01" key <> "\n") chatting).1 in
    (x.0 ≡ ok go_on)
    × (x.1.client.trace
        ≡ wrote 4 (pack codec (raw (signed_message client connected "c@01" greeting))) ∷ [])
    × (x.1.output ≡ echo "  saved: bob" ∷ echo "  [sent]" ∷ [])
saying-adding_example =
    saying-adding client "bob" bob-IsWord "c@01" "c" "01" "hello" key chatting 4 greeting
      address-IsWord key-IsKey ((omega arith, tt), inl refl) hello-EndsInText greeting-IsSending

read_line-HasSent_example : HasSent client chatting (read_line client "bob: hello" chatting).1
read_line-HasSent_example = read_line-HasSent client "bob: hello" chatting tt

abbrev process : Process
process = record {
  state = state_of (db_of "01");
  server = some ("localhost", (false, 7001));
  accepted = peer ∷ [];
  gossiping = true;
  is_open = true;
}

-- The end of the server unregisters the peer that it had accepted.
stopped : (stop process).1.state.conns ≡ []
unfolding stop stop_gossip stop_transport close_server close_listening end_handlers in_state
    close_storage all remove Dict.pop close_all
stopped = refl

abbrev served : String × (Bool × ℕ) → Result (Unit {0})
served endpoint = ok tt

start-cases_example :
    ((e : Error) × (start served alice process ≡ (err e, process)))
    ⊎ Started served alice process (start served alice process)
start-cases_example = start-cases served alice process

abbrev machine : Machine
machine = record { files = []; databases = []; output = [] }

drawn :
    AreKeys primitives
      (generate_node primitives (1 ∷ []) (2 ∷ []) "localhost:7001" "permanent" "open").signing
      (generate_node primitives (1 ∷ []) (2 ∷ []) "localhost:7001" "permanent" "open").encryption
unfolding generate_node gen_signing gen_encryption primitives
drawn = record {
  signing_private = (omega arith, tt);
  signing_public = (omega arith, tt);
  enc_private = (omega arith, tt);
  enc_public = (omega arith, tt);
  signing_accepted = refl;
  enc_accepted = refl;
}

abbrev drawn_node : NodeIdentity
drawn_node = generate_node primitives (1 ∷ []) (2 ∷ []) "localhost:7001" "permanent" "open"

info-init_example :
    (do
      init primitives (1 ∷ []) (2 ∷ []) "localhost:7001" "node.json" "permanent" "open"
      info primitives "node.json")
      machine
    ≡ (
      ok 0,
      record machine {
        files = Dict.put "node.json" (save_node drawn_node) [];
        output =
            init_lines drawn_node "localhost:7001" "permanent" "open" "node.json"
            ++ info_lines drawn_node;
      },
    )
info-init_example =
    info-init primitives (1 ∷ []) (2 ∷ []) "localhost:7001" "node.json" "permanent" "open" machine
      drawn

created-genesis_example :
    created host "node.json" "node.db"
      (genesis served
        (λ s. s)
        host
        (1 ∷ [])
        (2 ∷ [])
        "localhost:7001"
        "node.json"
        "node.db"
        "open"
        machine).1
    ≡ ok (
      drawn_node,
      new_process (
          open_db (
            Dict.get "node.db"
              (genesis served
                (λ s. s)
                host
                (1 ∷ [])
                (2 ∷ [])
                "localhost:7001"
                "node.json"
                "node.db"
                "open"
                machine).1.databases)),
    )
created-genesis_example =
    created-genesis served (λ s. s) host (1 ∷ []) (2 ∷ []) "localhost:7001" "node.json" "node.db"
      "open" machine drawn
