-- ===== src/Lib.antt =====
-- A verification library of umoci, which reads and changes OCI container images.
--
-- The parts and their files:
-- - Base: what the other modules share: lists and texts over the native numbers, Go's results,
--   errors, programs that change a state and may fail (Program), signed integers and maps with string
--   keys.
-- - Image: the structures of image-spec that the code works on.
-- - IdTools (pkg/idtools/idtools.go): ToHost and ToContainer over id mappings in uint32 arithmetic
--   (Mapping), ParseMapping (Parse), with their laws (RoundTrip, ParseLaws).
-- - Hardening (pkg/hardening/verified_reader.go, pkg/system/copy.go): a VerifiedReadCloser over a
--   reader from outside or over another one. Reader has Read and Close, Verified what one Read does,
--   Stream what whole streams show.
-- - Cas (oci/cas/cas.go): the interface of a store of blobs, with the promises of its comments as a
--   record of laws, up to what an index is once it was stored and read. It is a parameter of all that
--   uses a store.
-- - CasDir (oci/cas/dir/dir.go): the store in a directory, Engine and Layout, over the calls of Disk.
--   Laws has what it relies on; Quiet, Blobs, Flat, Listing and PutBlob are about its operations, and
--   Lawful about it as an implementation of Cas. The promises of Cas are up to what encoding/json makes
--   of an index, which is not the same index always: an empty map of annotations is read as nil.
-- - Casext (oci/casext): descriptors in values found by reflection (Value, map.go), the walk over
--   descriptors and the digests that it reaches (Walk, walk.go), garbage collection (Gc, gc.go), and
--   reference names (Refname, refname.go), with the registry of parsers (MediaType,
--   mediatype/parse.go). Reach gives reachability as a relation, Marking and Fuel
--   relate the walk to it, Roots and Sweep are the halves of a collection, and GcLaws joins them.
-- - FilePath: the functions of Go's path/filepath that the code calls.
-- - Unpriv (pkg/unpriv/unpriv.go): Wrap, which changes the modes of directories for the time of a call
--   (Wrap), the calls under it (Calls, Trees), over the system calls (Os). Modes and WalkModes are about
--   the modes of files: what a path names is a file with a number, so that several paths may name one.
-- - FsEval (pkg/fseval): the interface to the file system and its two instances.
-- - Layer (oci/layer): mapHeader and unmapHeader of utils.go, which use IdTools (Header, HeaderLaws);
--   the extraction of layers, tar_extract.go and UnpackLayer of unpack.go, over an FsEval: the
--   extractor (Extractor), CleanPath and paths as lists of components, the last one first (Paths),
--   restoreMetadata (Metadata), whiteouts (Whiteout), how a path is created (Create), UnpackEntry
--   (Entry). Inside, Guarded and the Confined modules are about the root of the extraction and the
--   symbolic links on the way to a path, PathLaws, UpperPaths and Spared about the upper paths.
-- - Mutate (mutate/mutate.go, oci/casext/json.go): a Mutator of an image with its cache and its
--   operations (Mutator), Commit (Commit), and their laws (Layers, Path).
-- - Config (oci/config): the Generator of an image configuration (Generator, Setters, Getters,
--   oci/config/generate/spec.go) and the environment of a runtime configuration (Env,
--   oci/config/convert/runtime.go).
-- - MtreeFilter (pkg/mtreefilter/mask.go): the filters of deltas (Mask), and which paths a mask stops
--   (MaskLaws). A rooted clean path is the list of its components, the last one first.
-- - Tests: runs on concrete data.
--
-- State and errors: a function that changes a store takes it and returns it as it is then, on errors
-- too. A method of a struct takes the struct and returns the new one. A Go result with an error is a
-- Result; a nil slice or map that the code tells from an empty one is `none`; a panic or the end of
-- the process is a value that its module names.
--
-- Parameters: the system calls (Os, Disk), the digests and the JSON of the store (Digests, Json),
-- SecureJoinVFS, the tar reader and the other calls of the extraction (Env); the store (Cas),
-- FromDescriptor and GetParser (fetch and parseable in Casext), reflect.DeepEqual and
-- IsRegisteredPackage (same and registered), the digest algorithms (Hashing), the reader below
-- (Source), the protobuf encoding of the rootless xattr (Proto), the JSON encoding and the compressors
-- of the Mutator (Codec, Compressor, Formats), and the JSON decoder of the parsers (Decoder).
--
-- Fuel: the walk over descriptors takes fuel. More than the number of the digests that can be reached
-- is enough, in an image where descriptors of one digest have the same children. Close takes fuel for
-- the reads that drain the stream and for the readers below. A Go slice is a value, so that what two
-- appends to one backing array do to each other is not modelled.
--
-- The calls of Unpriv that go through a tree or a path take a unit of fuel for each level, and Copy one
-- for each interrupted call; with too little of it they return an error of their own.
--
-- Not modelled: logging, contexts, the generation of layers, KeywordFunc of FsEval, the unpacking
-- of manifests, and the commands. An error of blob.Close in the walk, which becomes that of the
-- walk, an error of the reader of PutBlob other than one of the write, and values that share a
-- pointer, which MapDescriptors would map twice, are left out too. The mode of a tar header is a
-- natural number. regexp.MatchString is the matcher of Casext/Refname/Regex. The attributes of a
-- header are set in the order of the association list, where Go has any order.
pub mod Base
pub mod FilePath
pub mod Image
pub mod Cas
pub mod CasDir
pub mod Casext
pub mod Hardening
pub mod IdTools
pub mod Layer
pub mod Mutate
pub mod MtreeFilter
pub mod Config
pub mod Unpriv
pub mod FsEval
pub mod Tests
