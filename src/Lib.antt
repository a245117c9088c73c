-- ===== src/Lib.antt =====
-- A model of forestfire, a Python framework for bots on the Signal network, and the theorems that
-- its parts keep their promises.
--
-- A bot runs signal-cli as a child process. A line that signal-cli prints becomes a message
-- (forest/message.py) in the inbox. The bot (forest/core.py) settles the request that the message
-- answers or, if it answers none, turns it into a command and runs the method of that name; the
-- answer goes to the outbox as a JSON command, and is written to signal-cli no faster than the
-- network allows. What a bot has to remember it keeps in persistent dictionaries
-- (forest/pdictng.py), each a namespace of a key-value service which one process claims at a
-- time.
--
-- - Value: the values of Python that are stored, and json.dumps and json.loads on them. A JSON
--   text is the value that it denotes.
-- - Persist: class aPersistDict of forest/pdictng.py: a record of its fields, and one function
--   per method. Persist/Ints and Persist/Lists are its subclasses aPersistDictOfInts and
--   aPersistDictOfLists, Persist/Claim the claim of a namespace, with the interleavings of two
--   writers in Persist/Claim/Race and a restart in Persist/Claim/Restart. Persist/Memory is a
--   key-value service in memory, Persist/Faster the client that speaks HTTP
--   (fasterpKVStoreClient), with its requests in Persist/Faster/Raw.
-- - Distance: forest/string_dist.py: levenshtein with its table as a list of rows,
--   levenshtein_norm, and match. Distance/Edits is the independent notion of a way from one text
--   to another.
-- - Message: class Message of forest/message.py and parse_text, and StdioMessage, Quote and
--   Reaction in Message/Stdio.
-- - Bot: in forest/core.py, is_admin, requires_admin, match_command, default and handle_message
--   of class Bot, do_help in Bot/Help, and respond_and_collect_metrics, up to the wait and after
--   it, in Bot/Replies.
-- - Question: class QuestionBot of forest/core.py: the futures that wait for an answer in
--   Question/Pending, a yes-or-no question over the answers to it in Question/Loops, the other
--   questions in Question/Numbers, Question/Choice, Question/Address and Question/Challenge, the
--   loop that some of them share in Question/Reask, get_uuid_from_dict in Question/Users.
-- - Pay: the payments in forest/core.py and forest/payments_monitor.py. Pay is the state, the
--   events and the monad, Pay/Mobster the requests to the full-service wallet, with the exchange
--   rate in Pay/Mobster/Rate, receipts and pending transactions in Pay/Mobster/Receipts and the
--   splitting of coins in Pay/Mobster/Txos, Pay/Payment the classes PayBot and FsrPayBot, with
--   do_fsr in Pay/Fsr.
-- - Crypto: forest/cryptography.py: how a stored value is packed and unpacked, and the keys.
-- - Wrapper: mc_util/__init__.py: the base58 form of an address.
-- - Secrets: parse_secrets, load_secrets and get_secret of forest/utils.py.
-- - Synonym: class SynonymBot of forest/synonymbot.py.
-- - Datastore: class SignalDatastore of forest/datastore.py, with its client in Datastore/Http.
-- - Memory: class MemoryBot of forest/memorybot.py, with the history that it shows in
--   Memory/Content; the calls that Python allows inside each other are the fuel of quote_chain,
--   and more of them than there are earlier messages in memory are enough. Memory/Chain is the
--   independent notion of a chain of quotes.
-- - Web: the handlers of the web application in forest/core.py, with do_ping, do_pong and
--   do_uptime of class ExtrasBot.
-- - Signal: class Signal of forest/core.py: the lines that signal-cli prints in Signal/Inbox,
--   write_commands and its rate limit in Signal/Limit, the loop of start_process in
--   Signal/Restart, send_message, wait_for_response and the answers that handle_messages settles
--   in Signal/Requests, the commands that nobody waits for, and the messages to admins, in
--   Signal/Outgoing, and SIGINT in Signal/Shutdown.
--
-- A method of an object is a function from its state to a result, or an exception, and the state
-- afterwards, so that what was changed before an exception stays changed. Each operation on a
-- dictionary holds its lock, and is one step. Loops are structural recursion on what they run
-- over, a dialog with a user on the list of the answers. The looks at the clock that a wait for
-- the rate limit has are the fuel of the wait: three, and one for each second that the allowance
-- is below zero, are shown to be enough. The wait for a receipt and the splitting of coins may go
-- on for ever: their fuel is an argument.
--
-- In Pay, each request to the wallet or to signal-cli is an event, and the answer to it is any
-- function of all events so far, so that the outside may answer anything, and change its mind.
--
-- Parameters stand for code outside the repository: the key-value service (KvClient, with the
-- laws that the proofs use of it in KvLaws, which the service in memory and the HTTP client
-- fill), str.lower, json.loads and shlex.split (TextLib), the methods and conversions that a
-- number is read with (AnswerLib), the cipher, the compression and base58 (CryptoLib, with
-- CryptoLaws), the checksum and the protocol buffers (WrapperLib, with WrapperLaws), the files
-- with secrets (Files), the conversions of receipts and addresses (Coins), the map service, the
-- uuid library, the web service behind the HTTP client (Http, with HttpLaws), the texts of JSON
-- values (JsonText), the client of the datastore (TextClient, with TextLaws, which the HTTP
-- client fills), the texts of values in f-strings, docstrings and tracebacks, the clock and the
-- ids that get_uid returns. Times are whole numbers of seconds or milliseconds, and a quotient of
-- two lengths is an exact fraction where the program has a float.
--
-- Not modelled: the ledger and the database, and the bots of forest/extra.py; generated code and
-- the copy of fusepy; logging, the processes that are run, and the network. Files are modelled
-- where the datastore and the secrets read them.
pub mod Prelude
pub mod Value
pub mod Persist
pub mod Distance
pub mod Message
pub mod Bot
pub mod Signal
pub mod Question
pub mod Pay
pub mod Crypto
pub mod Web
pub mod Wrapper
pub mod Secrets
pub mod Synonym
pub mod Datastore
pub mod Memory
