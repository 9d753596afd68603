-- ===== src/Lib.antt =====
-- HttpFilteringEngine: a transparent HTTP and TLS proxy that filters what it relays. A diverter
-- turns the packets of web connections to the proxy's listeners; an acceptor gives each connection
-- a bridge between client and server; the bridge reads and writes HTTP transactions, which the
-- filtering callbacks inspect and may block. Paths below are from the repository's root.
--
-- Modelled here:
--
-- Http/: the transactions of src/te/httpengine/mitm/http (BaseHttpTransaction, HttpRequest,
-- HttpResponse). Headers.antt is `HttpHeaderMap`, a multimap, as the list of its entries in order;
-- an iterator range is the list of its entries. Names.antt has the constants of
-- src/te/util/http/KnownHttpHeaders.hpp that are looked up. State.antt has the members as one
-- record, `Transaction`; the subclass with its own members is the field `kind`. Edit.antt has
-- AddHeader, both RemoveHeader and GetHeader; Status.antt the status codes; Head.antt OnUrl,
-- OnStatus and HeadersToString; Payload.antt SetPayload, Make204, the tests of the payload, and the
-- read and write buffers; Codec.antt the compressions, DecompressPayload and
-- ConvertPayloadFromChunkedToFixedLength; Callbacks.antt http_parser's callbacks and Parse.
-- Operations take a transaction and return the one that they leave. Code that may throw has a
-- `Result`.
--
-- Diversion/: the packet diversion of src/te/httpengine/mitm/diversion. Socks.antt has
-- IsV4AddressPrivate and IsSocksProxyConnect of BaseDiverter; State.antt the members of
-- impl/win/WinDiverter, its port accessors and the packets; Process.antt both GetPacketProcess and
-- GetPacketProcessBinaryPath; Packets.antt one turn of the loop of RunDiversion; Loop.antt the
-- loop with its receives and sends; Lifecycle.antt Run and Stop on a record of handles and threads.
-- The arrays that are indexed by port are functions.
--
-- Bridge/: src/te/httpengine/mitm/secure/TlsCapableHttpBridge. State.antt has the members of a
-- bridge as one record, how operations end (`Completion`) and the operations that a handler may
-- start (`Operation`); a handler takes the bridge to a bridge and an operation. Judgement.antt has
-- ShouldBlockTransaction, with the filtering callbacks as parameters; Reading.antt the beginning
-- that the handlers of reads share; Answers.antt OnUpstreamHeaders, OnUpstreamRead and
-- OnDownstreamWrite; Requests.antt OnDownstreamHeaders, OnDownstreamRead and OnUpstreamWrite;
-- Preview.antt PreviewParser and OnInitialPeek; Connecting.antt Start, OnResolve,
-- OnUpstreamConnect, the handshakes and the timer; TlsPeek.antt OnTlsPeek on signed bytes and sizes
-- of 64 bits; Passthrough.antt the volley, and Passthrough/Flows.antt its steps with the bytes of
-- either direction; Steps.antt the step relation that joins the other handlers. Streaming.antt joins
-- ShouldBlockTransaction to the channels of Channels/, and Handshakes.antt the handshake with the
-- server to the store of Certificates/. ClientContexts.antt has InitClientContext. The template's
-- argument is the field `is_tls`.
--
-- Certificates/: BaseInMemoryCertificateStore of src/te/httpengine/mitm/secure. Store.antt has its
-- members, the objects of OpenSSL that are owned, and code that may throw as a function of the
-- store; Issue.antt the constructor, GenerateEcKey, IssueCertificate and GenerateSelfSignedCert;
-- Server.antt GetServerContext, with the locals of its parts; Destroy.antt the destructor; Pem.antt
-- GetRootCertificatePEM; Extension.antt Addx509Extension. `Calls` has the outcome of each call of
-- OpenSSL.
--
-- Certificates/Windows.antt is WindowsInMemoryCertificateStore of the same folder, with the
-- system's store as a parameter.
--
-- Channels/: src/te/httpengine/util/cb/StreamCopyUtils.hpp, through which callbacks write responses
-- of their own. Channels.antt has the operations on the static channels and the vectors they lead
-- to; Sharing.antt the steps of many channel objects at once.
--
-- Control/: Acceptor.antt is src/te/httpengine/mitm/secure/TlsCapableHttpAcceptor.hpp, with the
-- steps of its accepts and handlers; Engine.antt is
-- src/te/httpengine/HttpFilteringEngineControl.cpp, on the acceptors and on the diverter of
-- Diversion/, which Diverting.antt reaches as mitm/diversion/DiversionControl.cpp does; Process.antt
-- is HttpFilteringEngineCAPI.cpp, on one engine of a process, and RootCa.antt its
-- fe_ctl_get_rootca_pem; Defaults.antt has the callbacks that the engine puts in for missing ones,
-- with ShouldBlockTransaction. Reporting.antt is src/te/httpengine/util/cb/EventReporter.hpp.
-- Builds without debug checks are taken.
--
-- External.antt has what the program calls and the repository does not hold, as parameters: boost's
-- string algorithms and filters, and http_parser, as the callbacks that one call makes. Text/ has
-- numbers in text, the comparison of names, and (StringRef.antt)
-- src/te/util/string/StringRefUtil.hpp with util/hash/StringHashUtils.hpp; Base/ the shared
-- helpers. Tests/ has concrete instances of the parameters and the theorems at concrete inputs.
--
-- Fuel: the loop of RemoveHeader(name, value) runs on fuel, since it may not end; the readers of
-- heads and of chunked bodies, which specify the printers, run on fuel that their theorems show to
-- be enough. Digits of a number n are printed with fuel n + 1.
--
-- The loops of OnTlsPeek run on fuel, since they may not end, and say so when it is used up.
--
-- The loop of RevokeOsTrust runs on fuel that its theorem shows to be enough; Split runs on fuel,
-- one for each piece.
--
-- Not modelled: the build of the diverter without HTTP_FILTERING_ENGINE_USE_EX. Of the bridge,
-- reports of debug builds and the values of socket options are left out; boost's sockets are seen
-- as the operations that end. Of the acceptor and the engine, locks and the lifetime of handlers of acceptors that were replaced
-- are left out. Texts of reports, failures to allocate a transaction's buffers, and guards against
-- pointers that the constructors never leave null are left out. Turns of the diverter's threads are
-- taken one after another, so races between them on the arrays are not seen.
pub mod Base
pub mod External
pub mod Text
pub mod Http
pub mod Diversion
pub mod Bridge
pub mod Certificates
pub mod Channels
pub mod Control
pub mod Tests
