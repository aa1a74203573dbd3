-- ===== src/Lib.antt =====
-- libmw-core, the C++ library under the Mimblewimble nodes: its data structures, the rules of a
-- transaction and the storage behind them, as definitions that compute, with theorems about them.
--
-- The program. Util has the bit tricks, the byte order and the hexadecimal form that all other
-- parts use. Serialization writes values to a list of bytes and reads them off a buffer; Models
-- are the values (integers of a fixed number of bytes, inputs, outputs, kernels, bodies,
-- transactions, addresses), each with its writer and its reader. Mmr is the Merkle mountain range:
-- Index computes on the positions of the nodes, Node hashes leaves and parents through a
-- Serializer, a backend holds leaves and nodes, and Mountain adds, rewinds and takes the root over
-- any backend. Consensus validates the body of a transaction, and Crypto its range proofs in a
-- batch. Db is a batch of writes over LevelDB and the block database on it. File is the
-- append-only file, on which one of the backends stands, and the bitmap file. Net talks to a
-- SOCKS5 proxy through a socket. Lock gives readers and writers their turns on an object, and
-- commits or rolls it back behind a writer.
--
-- Which file models which part:
--   Util/BitUtil.antt        include/mw/core/util/BitUtil.h
--   Util/EndianUtil.antt     include/mw/core/util/EndianUtil.h (IsBigEndian, and memcpy of integers)
--   Util/HexUtil.antt        include/mw/core/util/HexUtil.h (FromHex, ToHex)
--   Exceptions.antt          include/mw/core/exceptions (the exceptions as values, without messages)
--   Serialization.antt       include/mw/core/serialization/Serializer.h and Deserializer.h
--   Models/BigInt.antt       include/mw/core/models/crypto/BigInteger.h
--   Models/ProofMessage.antt include/mw/core/models/crypto/ProofMessage.h
--   Models/Net.antt          include/mw/core/models/net/IPAddress.h and SocketAddress.h
--   Models/Tx.antt           include/mw/core/models/tx, and Commitment.h, Signature.h,
--                            BlindingFactor.h and RangeProof.h of include/mw/core/models/crypto
--   Models/Block.antt        include/mw/core/models/block/CompactBlock.h and ShortId.h
--   Mmr/Index.antt           include/mw/core/mmr/Index.h, src/mmr/Index.cpp and LeafIndex.h
--   Mmr/Node.antt            include/mw/core/mmr/Leaf.h and Node.h
--   Mmr/Backend.antt         include/mw/core/mmr/Backend.h, and the loop of AddLeaf
--   Mmr/VectorBackend.antt   include/mw/core/mmr/backends/VectorBackend.h
--   Mmr/FileBackend.antt     include/mw/core/mmr/backends/FileBackend.h
--   Mmr/Mountain.antt        include/mw/core/mmr/MMR.h and src/mmr/MMR.cpp
--   Net/Socket.antt          include/mw/core/net/Socket.h and src/net/Socket.cpp
--   Net/Socks5Proxy.antt     src/net/proxy/Socks5Proxy.cpp and include/mw/core/net/proxy
--   Consensus.antt           include/mw/core/consensus/CutThroughVerifier.h and
--                            KernelSignatureValidator.h, and TxBody::Validate
--   Consensus/KernelSums.antt include/mw/core/consensus/KernelSumValidator.h, and the sums of
--                            src/crypto/Crypto.cpp
--   Crypto/Bulletproofs.antt src/crypto/BulletproofsCache.h, and VerifyBulletproofs of
--                            src/crypto/Bulletproofs.cpp
--   Crypto/AggSig.antt       VerifyAggregateSignatures of src/crypto/AggSig.cpp, and what it calls of
--                            src/crypto/ConversionUtil.cpp
--   Db/OrderedMultimap.antt, Db/DbTransaction.antt, Db/Database.antt   src/db/common
--   Db/BlockDb.antt          src/db/BlockDB.cpp, BlockDB.h and ChainStore.cpp
--   File.antt, File/AppendOnlyFile.antt   include/mw/core/file/AppendOnlyFile.h, and File::Write of
--                            src/file/File.cpp
--   File/BitmapFile.antt     include/mw/core/file/BitmapFile.h, and File::WriteBytes
--   Lock.antt, Lock/System.antt   include/mw/core/common/Lock.h and
--                            include/mw/core/traits/Batchable.h
-- The modules below each of these prove what their names say; Common has the shared helpers,
-- Samples the concrete parameters of the tests, and the modules named Tests the examples.
--
-- How state and operations correspond. A class is a record of its members, and a method is a
-- function in the source's words, in lower case (GetLeafIndex is get_leaf_index), that takes the
-- state last and returns the new one. A call that can throw returns a Result: ok, err with the
-- exception, or undefined where the C++ standard gives the call no meaning (a read outside of a
-- buffer, a null pointer, an overflow of a signed integer) or the program terminates (an exception
-- in a noexcept function). Asserts are left out, as in a release build, but for those of
-- Database::Put and AppendOnlyFile::Rewind, which calls of the program can break: where they fail,
-- the call is undefined. An unsigned integer is a natural number with its wrap-around written out
-- (add64, sub64, mul64, one_shl64).
--
-- Parameters. The byte order of the machine is Platform, Blake2b is Hashing, SipHash a function,
-- secp256k1-zkp is Schnorr, Pedersen and RangeProofs, LRUCache is LruCache, LevelDB is LevelDb,
-- the kernels of each coin are KernelFactory, its headers HeaderFactory, in the database its
-- headers and blocks Chain, the addresses of asio AsioAddress and its calls Asio. What a theorem
-- asks of them is one of its hypotheses.
--
-- Bounds and fuel. The loops that halve a 64-bit word until it is 0 have 64 rounds: the theorems
-- on them hold for all words. The loop of AddLeaf has 66: behind a leaf stand at most 65 parents,
-- and add-IsValid proves that the loop ends in time. Add and Rewind of the mountain range are
-- proved for fewer than 2^63 leaves, for which all positions are 64-bit numbers, Root for fewer
-- than 2^62, and the files for fewer than 2^57, whose hashes have room in files with 64-bit sizes.
--
-- Concurrency. Lock/System has the handles on one object as a step relation: a step runs from one
-- call of the mutex to the next, and the handles come and go in any order.
--
-- Not modelled: JSON and text forms, servers, threads, logging and child processes, the memory
-- that `reserve` asks for, calls of the operating system that fail, locks on several objects at
-- once, and the libraries in deps.
pub mod Common
pub mod Util
pub mod Exceptions
pub mod Samples
pub mod Serialization
pub mod Crypto
pub mod Mmr
pub mod Models
pub mod Net
pub mod Consensus
pub mod Db
pub mod File
pub mod Lock
