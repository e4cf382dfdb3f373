-- ===== src/Lib.antt =====
-- The core of a chat client with end-to-end encryption, modelled from the C++ of the repository: an
-- X3DH agreement opens a session between two users, a double ratchet gives every message a key of its
-- own, the class CryptoBox keeps a user's identity, prekeys and sessions, and the class ChatClient
-- decides what goes to the server: the recovery of a session from a compromise, the verification of
-- safety numbers, the outbox, and files.
--
-- The parts and their files:
--   Base                  lists, byte arrays, tests, integers, the two kinds of map (QHash as an
--                         association list, QMap as an ascending one), and QSet as a list.
--   Platform              libsodium and Qt's text codecs, as a record that all definitions take, and
--                         the documented laws of those calls that the theorems use (IsLawful).
--                         Platform/Toy meets the laws, so they can hold together.
--   Hkdf, X3dh            client/src/x3dh.cpp and x3dh.h: hkdf, kdf, dh, the identity, signatures,
--                         newSignedPrekey, initiatorWithEphemeral, initiator, responder, hexadecimal
--                         coding. hkdf_sha256 is the helper of client/src/filecrypto.cpp.
--   Ratchet               the static functions of client/src/cryptobox.cpp on one RatchetSession, and
--                         the parts of encryptFor (send) and decryptFrom (receive) that work on it.
--   CryptoBox/State       the members of CryptoBox (client/src/cryptobox.h).
--   CryptoBox/Identity    the identity: generation, the files in the clear and under a password,
--                         the password verifier, resetForNewUser.
--   CryptoBox/Prekeys     generatePrekeys, rotateSignedPrekeyIfDue, dropExpiredPreviousPrekey,
--                         takeOneTimePrekey and what is published.
--   CryptoBox/PrekeyBlob  serialisePrekeys and restorePrekeys, as bytes.
--   CryptoBox/Sessions    ensureSharedKey, sessionFor, amInitiatorFor and the table of sessions.
--   CryptoBox/X3dhSessions  beginX3dhSession and acceptX3dhSession.
--   CryptoBox/Messages    encryptFor, decryptFrom, localSeal, localOpen.
--   CryptoBox/SafetyNumber  safetyNumber.
--   LogBuffer             client/src/logbuffer.cpp; LogBuffer/Recent has the unbounded log.
--   MessageModel          client/src/messagemodel.cpp: the rows of the conversation on screen.
--   UserModel             client/src/usermodel.cpp: the users, who is online, and the unread counts.
--   FileCrypto            client/src/filecrypto.cpp: a file as a stream of sealed chunks. The
--                         secretstream of libsodium is the record SecretStream, its laws IsStream.
--   FileTransfer          of client/src/chatclient.cpp: the loop of pumpOutgoingFile, and what
--                         onBinaryMessageReceived does to one transfer.
--   Client/State          the members of ChatClient (client/src/chatclient.h) that the parts below
--                         read, the frames, the calls on the history store, and the signals.
--   Client/Rekey          transmitRekey, noteOutboundTo, kickRekey and the rest of the recovery.
--   Client/Files          onBinaryMessageReceived and the handler of file_end.
--   Client/FileInit       the handler of file_init.
--   Client/Sending        handshakes, verification acks and files: transmitHandshake,
--                         sendOrQueueVerifyAck, sendFile and the others.
--   Client/Outbox         flushOutbox.
--   Client/Verification   flagKeyChange, acknowledgeKeyChange, tryResolveBilateral, sendVerifyResync
--                         and the handlers of verify_resync and verifyack. Client/Verification/Gate
--                         is the specification: three flags for a peer.
--   Examples              two users on the toy platform, on whom the theorems are instantiated.
--
-- How the parts interact: a CryptoBox holds the sessions of Ratchet by peer. A ChatClient holds a
-- CryptoBox, a MessageModel, a UserModel and the transfers; the functions of Client/Rekey and
-- Client/Sending encrypt with its box, flushOutbox calls those of Client/Sending, and the
-- verification calls flushOutbox. conversationBlocked holds texts, files and pings until both sides have
-- verified; the comments in flushOutbox, sendFile and acknowledgeKeyChange that call this gate
-- unilateral are older than the function.
--
-- How state and operations correspond: a function that changes members takes the box and returns the
-- changed one beside its result; a `bool` with out-parameters is an Option. Random bytes and clock
-- readings are arguments, one for each draw. The counters of a session and the prekey ids are
-- `quint32`: their increments are written out modulo 2 ^ 32. Times and prekey ids on the wire are
-- integers. A text is the list of its code units, a byte array a list of numbers. For ChatClient the
-- record World gives the platform, the stream of random draws, the local files and the row ids that the
-- store answers with; the clock is an argument of each call. Frames are data with their members in
-- place of JSON, and are collected in the order in which they are handed to the socket; so are the
-- calls on the history store and the signals errorOccurred, fileReceived and fileReceiveFailed.
--
-- Loops: the loops of skipTo, generatePrekeys and restorePrekeys recurse on the rounds that are
-- left, which the C++ conditions determine; the loop of hkdf on the bytes that are left; decimal on a fuel of ten, enough
-- for a number below 2 ^ 32; the loop of pumpOutgoingFile on the number of bytes of the file, enough
-- since each round reads at least one of them. No other definition has fuel.
--
-- Not modelled: memory wiping and debug output, which change nothing that is read later; the
-- serialised form of a session; a write to disk that fails; the build without libsodium; of the chat
-- client, login, the dispatch of the remaining frames, sendMessage, reconnecting, typing notices and
-- export; signals that only refresh the view (safetyNumberChanged, dataChanged, progress); the user
-- interface, the history database, the application lock and the server. The order in which a QHash or
-- a QSet is walked is that of its list.
-- The laws of Platform say nothing on the strength of a primitive, so no theorem here is about an
-- attacker's chances; the theorems are on what the code does with the primitives' results.
pub mod Base
pub mod Platform
pub mod Hkdf
pub mod X3dh
pub mod Ratchet
pub mod CryptoBox
pub mod LogBuffer
pub mod MessageModel
pub mod UserModel
pub mod FileCrypto
pub mod FileTransfer
pub mod Client
pub mod Examples
