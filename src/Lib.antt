-- ===== src/Lib.antt =====
-- recap_server, the server of the Resurrection Capsule project (C++): what it stores, encodes and
-- hands out. Paths below are relative to darkspore_server/source.
--
-- The parts. The game client speaks the Blaze protocol, whose packets are TDF trees in a byte buffer
-- (Blaze/TDF.cpp over Core/IO/DataBuffer.cpp). The Blaze components answer from the objects of
-- SporeNet: a User with its Account, Parts and other belongings, which are stored as XML through
-- pugixml, and the rooms of the lobby. A running game keeps objects with Attributes and Catalysts
-- and tells the client what changed. A scheduler runs delayed tasks.
--
-- The files.
--   Prelude      shared names and lemmas: Tests (Boolean tests, the conditional, options), Lists, Bytes
--                (machine words), Int (signed integers).
--   Map          what is used of std::map: a list in the order of its keys. Map/Laws its lookups.
--   DataBuffer   Core/IO/DataBuffer.cpp: impl_read, impl_peek and impl_write with the growth of the
--                vector. Varint is encode_tdf_integer and decode_tdf_integer, Endian the fixed-width
--                integers on a host of either byte order. Writes and Reads hold what a write leaves
--                and what a read finds, as lists of bytes.
--   Json         documents as data, and the interface to the rapidjson library.
--   Tdf          Blaze/TDF.cpp: Labels (CompressLabel, DecompressLabel), Codec (ReadHeader,
--                WriteHeader, read_string, WriteString and their like), Packet (the class Packet:
--                Write its writer, Calls its calls, Cases, Writes and Refines what the
--                writer puts on the wire), Parser (the class Parser: Reads, Cases, Steps and Parses
--                what it makes of the wire), Tree (TDF values apart from any document: Wire their
--                bytes, RoundTrip from calls to bytes to a document), Keys the names in documents.
--   Utils        Core/Utils/Functions: Numbers (to_number, std::to_string), Hash (hash_id), Explode
--                (explode_string), Strings (searches in std::string_view), CText (c_str), JsonFields
--                (the getters of Core/Utils/JSON.cpp), Xml (the interface to
--                pugixml and the helpers over it), XmlTree (an implementation of it).
--   Account      SporeNet/User.cpp, struct Account: Storage (Read after Write), Upgrade
--                (User::UnlockUpgrade, User::UnlockCreature).
--   Part         SporeNet/Part.cpp: Ids (the setters of assets), Setters (the others), Storage (Read
--                after Write in XML), Documents (Read after Write in JSON).
--   Squad        SporeNet/Squad.cpp and the squads in SporeNet/User.cpp: Storage (loading what was
--                saved), Updates (User::UpdateSquad), Decks (the class Squads).
--   Creature     SporeNet/Creature.cpp: Kinds (the enumerations), StatTexts (stats as texts: RoundTrip),
--                Template (TemplateCreature, TemplateDatabase), Adds (Creatures::Add), Storage (reading
--                what was written).
--   Room         SporeNet/Room.cpp: Table (one map of RoomManager with its objects), RoomView,
--                RoomCategory, Lobby (the class Room), Manager (RoomManager), Puts (calls on a packet).
--   Uri          HTTP/URI.cpp: Escapes (decode), Query (parse_query and the parameters).
--   Router       HTTP/Router.cpp: Table (the routes as a table of functions).
--   Attributes   Game/Attributes.cpp: Lookup and Values (the sorted vector), Writes (SetValue),
--                Reflection, Erasures and Sync (a client that applies WriteReflection).
--   Catalyst     Game/Catalyst.cpp: Colors (MatchingColor), Nouns (the noun identifiers).
--   Scheduler    Core/Async/Scheduler.cpp: Steps (calls of any threads between the steps of the
--                scheduler's own thread), Progress (its queue and the live numbers), Waits (what a wait
--                that times out finds).
--   Tests        runs at small inputs.
--
-- How state is modelled. A member function takes the object and gives the new one. A shared pointer to
-- an object of RoomManager is the place of the object in the list of all objects that the manager
-- made, so the maps may forget an object that others still hold; a destructor is an operation that may
-- happen at any time. A result that C++ leaves undefined or indeterminate, and an exception, is `none`.
--
-- Numbers are native naturals; a wrap-around is written as a remainder. Sums on size_t wrap at 2 ^ 64.
-- `|` of values without a common bit is a sum, and a shift or a mask a division or a remainder.
--
-- Bounds. The loop that grows a buffer runs on fuel `position + length + 1`, which is enough as each
-- round adds at least one byte. encode_tdf_integer runs on ten septets, enough for 2 ^ 64.
-- std::to_string prints at most twenty digits.
--
-- The readers and writers of TDF values run on fuel of the size of the tree, which the round trip
-- shows to be enough.
--
-- Parameters. rapidjson is the record Json.Rapidjson, with what it documents in Json.IsRapidjson:
-- added members and items come last, and the first member of a name is found. pugixml is the record
-- Utils.Xml.Xml, whose laws say that a new element has its name and text and that an appended child
-- comes last, with Utils.Xml.Numbered for attributes: a number that was set is found, and
-- Utils.Xml.Named for texts in attributes. Whether boost::regex takes a path for an expression, and
-- whether that matches a resource, are functions. A float of Attributes is a type with a zero;
-- those of creatures are Creature.Template.Floats, with their conversions to and from text. Whether
-- a weak pointer has expired is a function.
--
-- What a thread does in one hold of a lock is one step, and threads interleave as sequences of steps.
-- The scheduler's thread runs a task after it has released the lock, which is a step of its own, and
-- so is what Shutdown does before it takes the lock. A wait may end at any time, with a timeout only
-- at its time or later. Among tasks of one time the queue of the scheduler may give any.
--
-- Not modelled: sockets, condition variables, logging, RakNet bit streams, the Lua scripts and the game
-- world, which are input and output or code over libraries; the JSON form of creature templates,
-- vendors, users' sessions and HTTP multipart bodies. Memory does not run out: a vector grows as it is
-- asked to, up to 2 ^ 64 bytes, and a text in a document may be longer than the 32 bits of rapidjson.
-- Of the values that the Blaze functions put, the results on trees leave out lists of stubs and of
-- object identifiers, and maps with keys other than texts or values other than texts.
mod Prelude
pub mod DataBuffer
pub mod Utils
pub mod Account
pub mod Part
pub mod Attributes
pub mod Json
pub mod Map
pub mod Squad
pub mod Room
pub mod Tdf
pub mod Uri
pub mod Router
pub mod Catalyst
pub mod Creature
pub mod Scheduler
mod Tests
