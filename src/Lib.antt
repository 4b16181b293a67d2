-- ===== src/Lib.antt =====
-- A model of the adb file-system plugin, and what is proved of it.
--
-- The plugin shows the files of Android devices in a file manager. The manager calls the exported
-- functions of fsplugin.cpp, which turn UTF-16 names and FILETIMEs into the plugin's own (utils.hpp)
-- and call the methods of PluginCore (fsplugin_impl.hpp). PluginCore splits the manager's paths into
-- device and path (adbutils.hpp), keeps the listings of some seconds in a cache (adbutils.hpp), and
-- asks the devices through AdbClient (adbclient.hpp), which speaks the protocol of the adb server
-- (adbproto.hpp) over a socket (transport.hpp) and starts the server where none runs
-- (adbserver.hpp).
--
-- Base and the files below it: shared names, Boolean tests, lists, byte strings, bit operations,
-- integers, decimal printing, and methods that change a state and may fail.
--
-- Utf (utils.hpp: appendUtf8, appendWide, decodeUtf8, wideToUtf8, utf8ToWide, utf8ToWideBuf). A
-- string is the list of its bytes, a wide string the list of its 16-bit units; reading from a
-- position is reading the rest of the list. Utf/Scalar has the encodings of Unicode's code points,
-- to which Utf/Encode, Decode, Strings and Buffer relate the code; Utf/Bits has the arithmetic.
-- The loops run on the length of the text as fuel, and each round consumes at least one element.
--
-- FileTime (utils.hpp: timeToFileTime, fileTimeToTime; fsplugin_impl.hpp: isUnsetFileTime), with
-- the wrap-around at 2 ^ 64 and 2 ^ 32 written out.
--
-- RemotePath (adbutils.hpp: parseRemotePath, joinWfxPath; fsplugin_impl.hpp: the display names, the
-- parent directory, trimming, temporary names). ShellQuote (adbutils.hpp: shellQuote), and in
-- ShellQuote/Words how a POSIX shell splits a command line into words, as far as quotes,
-- backslashes and plain characters go: a line with anything else is not split at all.
-- RemotePath/Parents and Trim say which directory and which text the code means.
--
-- ListingCache (adbutils.hpp: ListingCache). Each call is given what the clock answers; ages are
-- integers without a bound. The mutex makes any use of the cache a sequence of calls, which
-- ListingCache/History is about, with ListingCache/Below for what lies below a directory.
--
-- Proto (adbproto.hpp) with Proto/Entry (DirEntry) and Proto/Devices (parseDevicesL and the device
-- states). The two loops of parseDevicesL run on the length of the text and of the line as fuel.
-- Proto/Framing, Packets, Devices/Listed and Devices/Printed hold the theorems; Devices/Lines has the
-- lines that the server prints.
--
-- Core (fsplugin_impl.hpp: PluginCore) with Core/Commands (deleteFile, removeDir, makeDir and the
-- command lines), Core/Touch (setModificationTime), Core/Move (renameOrMove), Core/Listing
-- (listDirectory), Core/Download (getFile) and Core/Upload (putFile). Core/Interface has the
-- operations of AdbClient and of the local system, which are arguments of the methods; a method
-- takes the state, which is the cache and the world outside, and answers a value or an error with
-- the state after it. What the theorems of Core/Download use of the local system are the laws of
-- `LocalFiles` in Core/Download/Safety: a call changes the file that it is given and no other.
-- Core/Laws is about the mutating shell commands and what the cache forgets after them. Core/Keeps has
-- the rules for methods that keep a view of the state, Core/Download/Source and
-- Core/Upload/Source what a move of getFile and putFile deletes.
--
-- Client (adbclient.hpp) has the connection and the requests, Client/Sync the packets and the
-- local file, Client/Operations listDevices, syncList, syncStat and shellCommand, and
-- Client/Transfers syncRecv and syncSend with the record of operations that PluginCore is given. A
-- conversation takes the world and the flag `stallCancelled`; the transport and the system's calls
-- on a descriptor are records of operations. The loops `for (;;)` run on fuel, and running out of
-- it is an error of its own. Client/Recv, Chunks and Delivery are about the loop of syncRecv; what
-- they use of the peer and of the disk are `RecvLaws` in Client/Recv/Laws and, where nothing
-- fails, `Delivers` in Delivery. One round of that loop takes at least a header from the stream.
-- Client/Send is about the loop of syncSend, over `SendLaws` in Client/Send/Laws and, where
-- nothing fails, `Delivers` in Client/Send/Delivery; Client/Recv/Conversation and
-- Client/Send/Reply and Confirmation are about the whole of syncRecv and syncSend, Client/Kept about what the
-- opening of a connection leaves alone, and Client/Stalls about a cancelled read.
-- Client/Peer is about whole conversations with a server whose answers have arrived: `Peer` says what
-- a call of the transport hears and says, Peer/Requests and Openings have the requests, and Peer/Listing,
-- Replies and Refusals syncList, listDevices, syncStat and shellCommand.
--
-- Transport (transport.hpp: loopTransfer, retryOnEintr, TcpTransport::writeAll, readSome,
-- readExactly), over `send` and `recv` as a record of operations. Transport/Loops has the rule for
-- the loop, Transport/Exact what is sent, Transport/Fill what is read, and Transport/Kept what a read
-- leaves alone. Transport/Connect (TcpTransport::connectTo, close) is over the calls on sockets;
-- `SO_NOSIGPIPE` is an argument, since one system has it and another has not. Transport/Wired makes
-- TcpTransport a transport of Client, and Transport/Wired/Recv is about syncRecv over it.
--
-- Find (fsplugin_impl.hpp: computeTransferPercent, fillFindData, advanceFindData, makeProgressFn,
-- isWriteOperation) is what stands between the manager's types and PluginCore. Server
-- (adbserver.hpp: adbServerPort) has the port, with `strtol` of the C library, and Server/Binary
-- (adbserver.hpp: splitPath, adbBinaryCandidates, findAdbBinary) the search for the binary, and
-- Server/Start (adbserver.hpp: startAdbServer) the process, over `posix_spawn` and `waitpid`.
--
-- Shim (fsplugin.cpp; fsplugin_impl.hpp: reportWarning, reportError) has the exported functions over
-- the globals, which are one record; those that call no method stand in Shim/Session. Shim/Codes,
-- Shim/RootName and Shim/Walk, on the calls of FsFindFirstW and FsFindNextW, hold theorems. The client on a port is an argument there.
--
-- Tests applies the theorems at concrete inputs.
--
-- Not modelled: FsFindClose, which only frees a handle. Exceptions, which the exported functions
-- catch: no call of the model throws. The interface headers wfxplugin.h (but for its numbers), common.h
-- and sdk.h, packaging and scripts. Memory, threads and the locking itself are outside the model.
pub mod Base
pub mod Utf
pub mod FileTime
pub mod Proto
pub mod RemotePath
pub mod ShellQuote
pub mod ListingCache
pub mod Core
pub mod Find
pub mod Server
pub mod Client
pub mod Transport
pub mod Shim
pub mod Tests
