-- ===== src/Lib.antt =====
-- A model of LocalChat, a peer-to-peer chat and file transfer program for one local network.
--
-- Discovery (include/BVDiscovery.hpp, src/BVDiscovery_Bonjour.cpp) finds other machines. The
-- connection manager (include/BVTCPConnectionManager.hpp, src/BVTCPConnectionManager.cpp) dials or accepts one TCP
-- connection for each peer. A session (include/BVTCPSession.hpp, src/BVTCPSession.cpp) reads frames of
-- 138 bytes from it, or chunks while a file comes in, and puts events into the mailbox of the
-- application (src/BVApp_ConsoleClient.cpp, mac-gui/BVApp_GuiClient.hpp), which keeps chat logs,
-- writes received files (include/BVReceivedFile.hpp) and, on a console, handles the keys and draws the
-- screen. A file is sent by a worker thread (include/BVFileTransferContext.hpp). Components exchange messages through queues
-- (include/threadsafequeue.hpp) and a broker (include/BVBroker.hpp, src/BVBroker.cpp).
--
-- Files and what they model:
--   Common    shared lists, byte buffers, bit operations, maps and the chain of optional results
--   Status    BVStatus of include/BV.hpp
--   Wire      the frames of include/BVTCPCommon.hpp and the code that builds and reads them: Defs has
--             the functions (GetFileHeader is get_file_header, and so on), Frame and Text what is read
--             back from what was written
--   Session   BVTCPSession: Defs has its buffers and what it starts on the socket, Handlers the
--             OnReceive... functions and the read callbacks, Control SendFileOffer and SendFileControl;
--             Arrival has bytes arrive for the read that waits; Reads, Chat, Files and Announce are
--             about frames, chats, chunks and announcements
--   Transfer  BVFileTransferContext: Defs has DetermineChunkSize, TransferNextChunk and the worker's
--             loop; Blocks describes how a file is cut; Run is about the loop, Progress about the
--             percentages
--   Received  BVReceivedFile over a disk whose calls may fail
--   Client    the console client's handlers of messages, offers and transfers, and the mailbox loop of
--             include/BVComponent.hpp
--   Mailbox   include/BVComponent.hpp's loop for any component, and the callbacks that the two register;
--             Ends is about the end of the program
--   Console   the rest of the console client: Defs has its state, Screen what it draws, Lines what an
--             entered line does, Keys the keys of its screens and the event loop, Services the handlers
--             of discovered, resolved and lost services; Typing and Arrives follow a line to the other
--             machine, Paths the argument of the file command, Menu, Prompt and Stuck the screens,
--             Known, Firsts, Peers, Lost, Forget, Keeps, Turns and Steps the list of services and what the program
--             keeps
--   Gui       the macOS client: Defs and Actions have what it adds, Same compares its mailbox loop with
--             the console client's, Offers is about the answers to offers
--   Discovery the component over Bonjour: Defs has src/bonjour_api.c's callback, the list's reading and
--             the component's operations, Browse and Batches what is reported; LinkedList and Chains
--             have src/linked_list.c on a heap
--   Delivery  the worker, the session and the client together
--   Manager   BVTCPConnectionManager: Defs has its operations, Registry and Keeps its two maps, Steps
--             what may happen to it, Glare who dials, Offers the answers to offers,
--             Identity, Handshake and Established what becomes of a connection,
--             Everyone a message to all, Asked an offer up to the peer's application
--   Broker    BVBroker and threadsafe_queue: Nodes has the queue with its pointers on a heap, Linked and
--             Fifo relate it to a list; Queue is the data in a queue, which is all the broker uses; Defs
--             and what holds of reachable brokers; Loop and Wiring the broker's thread and how
--             src/main.cpp sets the broker up
--   Tests     the theorems at concrete inputs
--
-- How state is modelled. Each component's state is a record and each operation a function on it; an
-- exception or a failed assertion is none. Sockets are the list of reads and writes that a session
-- starts; a read completes when as many bytes have come as it asked for. The hosts are little-endian.
-- A session sees the manager through the record ManagerOps, which Manager.Defs.manager_ops fills. The
-- handlers get from Env what C++ leaves open: the clock, the bytes of an uninitialised array and an
-- uninitialised length. A map of the source is an association list, and sessions_m is ordered by id. In
-- the broker a mailbox that is absent and one that is null are one case. A locked operation is one
-- step. What is drawn is a list of items, the fixed text of the menu one of them. The program asks a
-- record Machine for the clock and for the files it may send, a resolver for the endpoints of a host,
-- and a record Mover for the moves of received files. A handler's pointer to its data is never null, and
-- the data has the type that the handler expects.
--
-- Simplifications. What an asynchronous write sends is fixed when the write starts, also where the code
-- changes the buffer before it is done. A write to a received file that fails is seen to fail at once.
-- The address of a connected peer can be read. The manager asks its field `files` what the disk says of
-- a path, and others change it between steps.
--
-- Bounds and fuel. Counters have the width of the source (32-bit sizes and keys, 16-bit session ids,
-- 8-bit node and subscriber ids). The worker's loop runs on fuel; one round for each byte of the file
-- and one for the announcement are enough. The search for a free subscriber id has 256 rounds, as in the
-- source. A walk along the linked list has fuel for each of its elements. A host is resolved in at most
-- five attempts.
--
-- Not modelled: the mDNS libraries, resolution by discovery (ResolveService), the Avahi component, the
-- registration of the service, the setup of the acceptor socket, the raw mode of the terminal, the
-- Objective-C bridge of the macOS client, the callback that notes the progress of an outgoing
-- transfer, logging, the C libraries and the start of threads.
pub mod Common
pub mod Status
pub mod Wire
pub mod Session
pub mod Transfer
pub mod Received
pub mod Client
pub mod Delivery
pub mod Manager
pub mod Broker
pub mod Mailbox
pub mod Console
pub mod Gui
pub mod Discovery
pub mod Tests
