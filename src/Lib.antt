-- ===== src/Lib.antt =====
-- gomodfs serves the Go module cache as a read-only file system. This library models its parts and
-- proves what makes them correct.
--
-- A request for a path is parsed (path.go) into a module version and a file of it; the module comes
-- from a store (store/store.go), which is a git repository (store/gitstore) or another server
-- (store/remotestore), and if the store misses it, from a module proxy into the store (gomodfs.go).
-- Files are served over NFS (nfs.go), for which a small portmapper answers where the server is
-- (portmap). All parts count their operations (stats).
--
-- Which file models which part:
-- - Base and its children: names of the libraries, lists, texts and errors. A Go string is a list of
--   bytes. Error has the error values that the code tells apart with errors.Is, and `wrap` for
--   fmt.Errorf with %w. A Cmd reads and changes a state and returns a value or an error.
-- - Text: the functions of Go's packages strings and path that the code calls, on ASCII separators.
-- - Portmap: portmap/portmap.go. reply, readRecord and serveConn; xdrReader is a record that is passed.
-- - Store: store/store.go, and golang.org/x/mod/module as the parameter Escaper with its documented
--   laws IsEscaper; Store.Plain is an escaper with these laws.
-- - Paths: parsePath, parseModVersion and parseTSGoPath of path.go, isTSGoModule of tsgo.go, cdPath,
--   modVerZipPrefix and splitSegs of gomodfs.go, emptyPathJoin of nfs.go. The table seenPairs is a list
--   that the parser takes and returns.
-- - Modules: gomodfs.go and tsgo.go. Modules.Fetch has downloadMetaFile, downloadZip, getZipRoot,
--   getTailscaleGoRoot and getMetaFileByExt; Modules.Files the files that go into the store;
--   Modules.Handles the maps of the FS and its cache of handles, whose entries have the time of their
--   last use; Modules.Contents getFileContents.
-- - Remote: store/remotestore. Remote.Protocol is protocol.go, Remote.Handler handler.go, Remote.Client
--   and Remote.DirMap remotestore.go; Remote.EndToEnd puts the client against the handler.
-- - Git: store/gitstore/gitstore.go. Git.Tree is the tree builder, Git.Pack the pack writer, Git.Refs
--   the names of refs and CachedModules, Git.Listing newModHandle, Git.Reads the methods that read.
-- - Nfs: nfs.go. OnNFSRead; Nfs.Handles has ToHandle and the maps, Nfs.Search fromHandle and the
--   functions of gomodfs.go that it calls, Nfs.Names what a handle means;
--   Nfs.ReadCache is the cache of files that were read.
-- - Views: the files as nfs.go shows them (Lstat, ReadDir, getFileContentsUncached); Views.WebDav has Stat
--   and OpenFile of webdav.go.
-- - Lru: internal/lru/lru.go, on a heap of entries; Lru.Spec is the list that stands for a cache, and
--   Lru.Runs has sequences of calls.
-- - Stats: stats/stats.go.
-- Modules named Tests hold runs on concrete inputs and the theorems at concrete inputs.
--
-- Bounds and fuel: a 32-bit word keeps its wrap-around; sizes that Go counts in an int are natural
-- numbers, with the limit of 2 ^ 63 written out where a conversion meets it. readRecord runs on the
-- length of the input, of which each round takes four bytes or more; a pack header on the size, which
-- each round divides by 128; a client that reads a file on its length; the loop of the cache's Set on
-- the number of entries, of which each round deletes one, and so ForEach and the loop of setReadCache. The
-- walks over directories (walkFiles, buildTree, buildDirMap, addParentPathsLocked, walkStoreModulePaths)
-- and the lines of newModHandle run on fuel and tell when it runs out; no theorem claims that they end.
--
-- Not modelled: sockets, HTTP, git, SHA-1, SHA-256, zlib, LZ4, JSON, zip and tar, which are parameters;
-- locks and singleflight, since calls run one after the other; logs and metrics; the front ends for
-- FUSE and WinFsp, which adapt the same operations; and the copy of go-nfs below temp-dev-fork, which is
-- another project's library.
mod Base
pub mod Text
pub mod Portmap
pub mod Store
pub mod Paths
pub mod Remote
pub mod Stats
pub mod Modules
pub mod Git
pub mod Nfs
pub mod Views
pub mod Lru
