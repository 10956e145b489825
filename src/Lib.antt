-- ===== src/Lib.antt =====
-- The application manager of Open Red Button: the parsing of application information tables (AIT), the
-- choice of the application to run, the URLs that bound it, the applications themselves, and the manager
-- that starts, updates and kills them; the WebSocket services and the one through which two applications
-- exchange messages; and the search for programmes.
--
-- The program. Sections of the broadcast AIT are given to the class Ait (components/
-- application_manager/ait.cpp), which collects them in a table and publishes it when all its sections
-- have been received. The application manager then looks for the application to start, takes its base
-- URL and protocol from its transports, and creates an HbbTVApp (hbbtv_app.cpp) or an OpApp (opapp.cpp)
-- from its description. An application is updated by new descriptions, asked for key sets, and asked to
-- become broadcast related, which depends on the origins of its URLs (utils.cpp). A table also comes as an
-- XML document (xml_parser.cpp), which the manager takes in place of the broadcast one. Pages search for
-- programmes by queries, each in a thread of its own (MetadataSearchTask.cpp).
--
-- The files:
-- * Prelude and its children: Boolean tests, lists and text over the native numbers, reads through a
--   pointer.
-- * Ait (ait.h): the tables. Ait/SectionMask: SectionReceived and MarkSectionReceived. Ait/Descriptors
--   and Ait/Transport: the descriptor parsers, ExtractBaseURL, ExtractProtocolId. Ait/Application:
--   ParseApplication. Ait/Section: ProcessSection, ParseSection, Clear, ApplyAitTable. Ait/Select:
--   AutoStartApp, TeletextApp, FindApp, IsAgeRestricted. Their children hold the proofs.
-- * Url (utils.cpp): CompareUrls, IsPartOf, MergeUrlParams. Url/Origin: StrGetUrlOrigin and
--   CheckBoundaries. Timeout: Utils::Timeout.
-- * Url/Locator (utils.cpp): ParseCreateLocatorInfo, and the DVB triplets.
-- * XmlAit (xml_parser.cpp): the document of an XML AIT, and what is read from a node. XmlAit/Descriptor:
--   XmlParseAppDesc and its parts. XmlAit/Application: XmlAllocApplication and XmlParseApplication.
--   XmlAit/Table: XmlCountApplications and ParseAit. XmlAit/Writing: applications as elements, for the
--   round trip. Their children hold the proofs.
-- * HbbtvApp (hbbtv_app.h, hbbtv_app.cpp): the application; HbbtvApp/Keys: the key sets. OpApp (opapp.h,
--   opapp.cpp): the operator application and its countdown.
-- * ApplicationManager (application_manager.h, application_manager.cpp): the state of the manager and the
--   actions that its methods are made of. ApplicationManager/Running: starting, updating and killing
--   applications. ApplicationManager/Signalling: AITs, channels, the network, and pages.
--   ApplicationManager/Requests: what applications and the platform ask. ApplicationManager/Reachable: the
--   requests in any order. ApplicationManager/Invariant, Allowed and Outcome: the proofs.
-- * WebSocket (components/network_services/websocket_service.h and .cpp): the connections of a service and
--   what is sent on them. WebSocket/Callback: LwsCallback, and the default of OnFragmentReceived.
--   WebSocket/Looper: Start, Stop and MainLooper. Its other children hold the proofs.
-- * App2App (components/network_services/app2app/app2app_local_service.cpp): the service that pairs connections of
--   local applications with those of remote ones. App2App/Events: its events in any order; App2App/Pairing
--   and App2App/Invariant: the proofs. App2App/Relay: fragments from one WebSocket service to the other.
-- * ServiceManager (components/network_services/service_manager.cpp): the ids of the services that run.
-- * MetadataSearch (rdk/ORB/library/src/core/utilities/MetadataSearchTask.cpp): queries and what matches
--   them. MetadataSearch/Worker: the thread of a search. MetadataSearch/Tasks: the engine's map of
--   searches (ORBEngine.h) and the requests on it (BroadcastRequestHandler.cpp). MetadataSearch/Comparisons
--   and Texts: what the comparisons say. Its other children hold the proofs.
-- * The modules whose names end in Examples apply the theorems at concrete inputs.
--
-- The conventions. A machine integer is a natural number, with the wrap-around written out where the
-- code computes. A pointer is the list of the bytes from it to the end of its buffer, and a read or a
-- write outside the buffer has no result (`none`), where the code has undefined behaviour. The calls of
-- the session callback are lists of events and its answers are arguments. The clock and the thread
-- that calls are arguments of the timeout's operations.
--
-- Fuel. The loops over a section take the length of the buffer as fuel; each round consumes at least
-- two bytes, so this is enough. All other loops are structural.
--
-- The manager. A method is an action: it takes the manager's state to a result and a state, or faults
-- where the code has undefined behaviour or never returns. Ids are natural numbers; the unordered map of
-- the applications is a list of pairs with one entry for an id. The answers of the session callback, the
-- reader of XML documents, std::stoul with base 16, the build's version and the clock are a record, Session,
-- that each request has. The lock makes the requests atomic.
--
-- The XML AIT. Of libxml2 the model has the fields of nodes and attributes that the parser reads, as data;
-- the reader, from a text to the root of a document, is a parameter. A comparison of C strings is the
-- equality of texts. What the stack has in a variable that the parser does not set is a parameter.
--
-- The WebSocket services. A connection's user pointer and lws handle are one number, and its calls of
-- libwebsockets a list. What lws_create_context, lws_service and lws_write answer, the reasons of the
-- callbacks, and the virtual functions of a service are parameters; MainLooper takes the calls of
-- lws_service as a list, which is the bound of its loop. The mutex is how often it is locked; the unordered
-- map of the connections is a list of pairs with one entry for a user. The counter of the ids is a static of
-- all services, so what a new connection reads of it is a parameter.
--
-- The metadata search. The platform's channels and programmes, std::stol and the JSON of a programme are
-- parameters. Integers that may be negative are the type ℤ; an overflow has no result. What each check
-- of m_cancelled sees is an argument. A Query's construction from JSON and its printing are not modelled.
--
-- Not modelled: logging; the manager's lock and the destruction of an application, which stops its
-- countdown; the parts of the XML AIT's parser behind `#if 0`; the mutex of App2App; the options of a
-- WebSocket service's context, with TLS, the look-up of the service and the copy of a header; the media
-- synchroniser, whose clocks compute with floating point numbers; the JSON-RPC service; the other request
-- handlers, the utilities and the platform of the RDK, and its browser; the Android and JavaScript parts;
-- vendored code.
pub mod Prelude
pub mod Ait
pub mod Url
pub mod XmlAit
pub mod Timeout
pub mod HbbtvApp
pub mod OpApp
pub mod ApplicationManager
pub mod WebSocket
pub mod WebSocketExamples
pub mod App2App
pub mod ServiceManager
pub mod MetadataSearch
pub mod MetadataSearchExamples
pub mod ServiceManagerExamples
pub mod App2AppExamples
pub mod XmlAitExamples
pub mod ManagerExamples
pub mod UrlExamples
pub mod AppExamples
