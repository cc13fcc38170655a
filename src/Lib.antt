-- ===== src/Lib.antt =====
-- A model of packages of go4.org, a collection of small Go libraries, with the theorems that make them
-- correct. Paths below are from the root of the repository; each file opens with the code it is about.
--
-- Two packages call others of the repository: media/heif reads and writes files through
-- media/heif/bmff, and ziputil reads an archive of which only the end is known through readerutil.
--
-- Rollsum is rollsum/rollsum.go. `RollSum` is the struct, with 32-bit sums that wrap; new, add, roll,
-- on_split, on_split_with_bits, bits and digest are its functions. `contents` in Rollsum/Window is the
-- window from the oldest byte on.
-- Bmff is media/heif/bmff/bmff.go and quicktime.go. A stream is the bytes that are left and the error at
-- their end (Bmff/Stream); Bmff/Fields is `bufReader` with its sticky error; Bmff/Reader is `Reader`
-- with ReadBox, skipRest, readBody and parseAppendBoxes, where a `Source` says whether the input can
-- seek and how much is buffered. Bmff/Boxes has the parsed boxes, Bmff/Parser the monad of the box
-- parsers, Bmff/Parse and its children the parsers and their table. Bmff/Encode is the format
-- from the other side, to state what is read back.
-- Heif is media/heif/heif.go. Heif/File is `File` with setMetaErr and getMeta, Heif/Items the items with
-- their properties and data, Heif/Encode is EncodeImage, Heif/Derived is EXIF, Thumbnails and
-- StandaloneHEIF. A method that reads the metadata takes what getMeta gives; the io.ReaderAt is the
-- list of the file's bytes.
-- Writerutil is writerutil/writerutil.go, `PrefixSuffixSaver` with Write, fill and Bytes.
-- Strutil is strutil: ParseUintBytes and cutoff64 of strconv.go, where every exit of the Go function is an
-- early return, and of strutil.go AppendSplitN (Split, and its cuts in Split/Cuts) and IsPlausibleJSON
-- (Plausible).
--
-- Readerutil is readerutil: Parts is `multiRA` of multireaderat.go, where sort.Search is a parameter
-- (Parts/Loop its loop, Parts/Whole the reader against the bytes of all parts), Buffering is
-- `bufReaderAt` of bufreaderat.go, FakeSeeker is fakeseeker.go, with the
-- positions that its calls lead to in FakeSeeker/Positions, and Size is readersize.go.
-- Ziputil is ziputil/ziputil.go. ReadBuf has `readBuf` and the errors, End findSignatureInBlock,
-- readDirectoryEnd and the zip64 records, Names detectUTF8, Header readDirectoryHeader, with the loop over
-- the extra fields in Header/Extras, Times msDosTimeToTime and timeZone, Toc ZipTOCSize and ParseTOC,
-- Open OpenWithReader, skipHeader and readDataDescriptor, and Checksum `checksumReader`. Written is the format from the other side, an
-- archive as it is written; ReadBack, Find, EndFound, RoundTrip and OpenAt relate the parsers to it.
-- Syncutil is syncutil: Sem, Gate, Once, Group and Singleflight have one system each, with the shared state
-- and the program counters of all threads (Threads); a step is what one thread does under the lock or
-- between two locks, and `Reach` are the states that any interleaving leads to; what holds of them is in
-- the system's file or in its children.
-- Bytereplacer is bytereplacer/bytereplacer.go. Trie has trieNode with add and lookup, where a node's prefix
-- and next, or its table, are one of three kinds of links; Trie/Entries says what a trie holds for a key.
-- Generic is makeGenericReplacer, Buffer the array behind a slice and dst, which shares it or has its own,
-- Replace the loop of genericReplacer.Replace with its helpers, and New is New and byteReplacer.
-- Replace/Matches describes the replacement of a whole slice.
-- Jsonconfig is jsonconfig: of jsonconfig.go, Access has the accessors of an `Obj` and Validate UnknownKeys
-- and Validate, with what they are to complain of in Validate/Expected; Eval is eval.go with the expander of _env, and Eval/Files evaluates expressions and reads
-- the files that include each other, with the state of `ConfigParser`. Decoding, files and the
-- environment are parameters.
--
-- Integers are natural numbers with the wrap-around of the source written out; a nil slice is the empty
-- list. Loops are recursion on the list they read, or on fuel: `append_boxes` has one unit more than the
-- input has bytes, and each box takes eight; `parse_body` has one unit more than the body has bytes, and
-- each level of boxes takes eight; `overwrite` has a unit for each byte to be written; `read_parts` has
-- two units more than there are parts, each of which is read once; `read_headers` has one unit more than
-- the directory has bytes, and each header takes 46; the loops over extra fields and runes have a unit
-- for each byte, as has the loop of genSplit; `add` of a trie has one for each byte of the key; Replace
-- has three units and two for each byte, since an empty match uses one and is not repeated; ReadFile has
-- two units more than there are files. An `int64` of ziputil stands as its bits, a number below 2 ^ 64.
--
-- Not modelled: an io.ReaderAt that fails though the bytes are there, the text of error messages and
-- what is logged; of ziputil Close and the pool of decompressors; of syncutil syncdebug, and a panic of the
-- function that singleflight runs; of readerutil the counters and singlereader; of strutil the comparisons without case and the interned strings; of
-- jsonconfig closing files, values that are not decoded JSON, and the link between an object that an
-- accessor returns and the object it came from; and of the other packages lock and throttle, the glue
-- around the operating system and cloud services, and sort, a copy of the Go library's package.
pub mod Bytereplacer
pub mod Jsonconfig
pub mod Common
pub mod Bmff
pub mod Heif
pub mod Rollsum
pub mod Writerutil
pub mod Strutil
pub mod Readerutil
pub mod Ziputil
pub mod Syncutil
