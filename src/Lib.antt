-- ===== src/Lib.antt =====
-- blconf: the configuration daemon blconfd of the Xfce desktop, its storage, and the library of its clients.
--
-- A client asks the daemon over D-Bus for a property of a channel. A handler of blconfd/blconf-daemon.c goes
-- over the daemon's backends; blconfd/blconf-backend.c checks the names and calls a backend, and
-- the backend of blconfd/blconf-backend-perchannel-xml.c keeps each channel as a tree of properties, which
-- it reads from the channel's XML files at the first use and writes some time after a change. A client
-- keeps the properties that it has asked for in a cache, which the daemon's signals keep up to date. Its
-- channel is that cache and a prefix of names, with getters and setters for each type, for arrays and for C
-- structs; a binding couples a property of a channel to one of an object.
--
-- Which file models which part:
--   Base.antt, Base/: C strings as lists of bytes, with what g_strsplit, strrchr and strcmp do on them.
--   Backend/Names.antt: blconf_property_is_valid and blconf_channel_is_valid of blconfd/blconf-backend.c.
--   Backend/Dispatch.antt: BlconfBackendInterface as a record, and blconf_backend_set, _get, _get_all, _exists,
--     _reset, _list_channels and _is_property_locked over any such record.
--   Backend/Error.antt: the codes of blconf/blconf-errors.h, and results.
--   Tree.antt, Tree/Visit.antt: the GNode tree and blconf_proptree_lookup_node, _add_property, _reset,
--     _node_to_hash_table, _build_propname and the functions that g_node_traverse calls. Tree/Paths.antt,
--     Tree/Names.antt, Tree/Add.antt, Tree/Propname.antt and
--     Tree/Resets.antt have their laws: `view` is what the tree has at a path.
--   Perchannel/Channels.antt: BlconfBackendPerchannelXml as the record State, BlconfChannel, and how an
--     operation finds, loads or makes a channel. Perchannel.antt: set, get, get_all, exists and
--     is_property_locked; Perchannel/Reset.antt: reset and list_channels; Perchannel/Class.antt: all of
--     them as an interface.
--   Xml/: blconf_xml_handle_channel, _handle_property, _handle_value, the start and end of an element,
--     blconf_backend_perchannel_xml_merge_file and _load_channel, over the events that GMarkup gives;
--     Xml/Types.antt: the names of types of common/blconf-gvaluefuncs.c and the lists of users of
--     blconfd/blconf-locking-utils.c. Xml/Locks.antt, Xml/Policy.antt, Xml/Policy/ and Xml/Merge.antt follow the
--     handlers through a user's file, and Xml/Unsaved.antt through any file.
--   Values.antt, Values/: _blconf_gvalue_from_string, _blconf_string_from_gvalue and _blconf_gvalue_is_equal of
--     common/blconf-gvaluefuncs.c, over GValues as a data
--     type. Values/Shorts.antt: the accessors of int16 and uint16 and the transformations of them of
--     common/blconf-types.c, with their laws in Values/Shorts/Laws.antt. Values/Numbers.antt and Values/Print.antt are strtol, strtoul, "%u" and "%d" of the C library.
--   Writer.antt, Writer/Format.antt, Writer/Flush.antt: blconf_backend_perchannel_xml_write_node,
--     blconf_format_xml_tag, blconf_backend_perchannel_xml_flush_channel and _flush. Writer/Laws.antt has what the
--     C library's documentation says of its files, Writer/Document.antt the text of a file, and
--     Writer/Pieces.antt, Writer/Saving.antt, Writer/Closing.antt, Writer/Replacing.antt, Writer/Clean.antt,
--     Writer/Lost.antt and
--     Writer/Reading.antt what is left after a flush, on the disk and in the tree;
--     Writer/Flushed.antt and Writer/Ended.antt after a flush of all channels and at the end of the backend. Writer/Timer.antt: save_timeout,
--     finalize, and the steps of the backend as a relation; Perchannel/Timed.antt,
--     Perchannel/Pending.antt and Tree/Keys.antt follow the operations through it.
--   Client.antt, Client/Cache.antt, Client/Cache/Calls.antt: BlconfCache of blconf/blconf-cache.c. Client/Cache/Steps.antt
--     has its steps as a relation; Client/Cache/Tables.antt, Client/Cache/Linked.antt, Client/Cache/View.antt,
--     Client/Cache/Writes.antt, Client/Cache/Eviction.antt, Client/Cache/Stale.antt and
--     Client/Cache/Sending.antt its laws.
--   Client/Channel.antt: BlconfChannel of blconf/blconf-channel.c, blconf_channel_get_internal, _set_internal,
--     _property_changed, _has_property, _reset_property, _get_properties and the constructor.
--     Client/Channel/Typed.antt: the getters and setters of one type. Client/Channel/Property.antt:
--     blconf_channel_get_property and _set_property. Client/Channel/Arrays.antt: the arrays and lists of
--     strings. Client/Channel/Structs.antt: the structs, with ALIGN_VAL. Client/Channel/Signals.antt,
--     Client/Channel/ReadBack.antt, Client/Channel/Converted.antt, Client/Channel/Varargs.antt,
--     Client/Channel/Layout.antt and Client/Channel/Fields.antt have their laws.
--   Client/Binding.antt: BlconfGBinding of blconf/blconf-binding.c, the closures that end it, and the binding and
--     unbinding; Client/Binding/Notify.antt: the handlers that pass a value on. Client/Binding/Unbinding.antt,
--     Client/Binding/Orderly.antt, Client/Binding/Listed.antt, Client/Binding/Reach.antt,
--     Client/Binding/Search.antt, Client/Binding/Ends.antt and Client/Binding/Colors.antt have their laws.
--   Client/Library.antt: blconf_init, blconf_shutdown and blconf_named_struct_register of blconf/blconf.c.
--   Client/Query.antt: how main of blconf-query/main.c reads, writes and toggles a property; Client/Query/Runs.antt
--     has what one run writes and another reads.
--   Daemon.antt: the D-Bus handlers of blconfd/blconf-daemon.c over a list of backends; Daemon/Start.antt: how it
--     loads them, with blconfd/blconf-backend-factory.c, and the signals that it emits once it is idle;
--     Daemon/Ending.antt: how it flushes them when the bus disconnects and at its end.
--   Examples.antt, Examples/: the theorems at concrete inputs.
--
-- State is passed explicitly: an operation takes the backend's state and gives its result and the state
-- after it, on errors too. A pointer to a channel is the key of the table under which it stands (Handle),
-- so a channel that is inserted under another name than it is looked up by is modelled as such. A pointer
-- into a tree is the path that found the node.
--
-- The cache of a client numbers its calls, and an old item, to which both tables point, is named by its
-- property. A write to a file goes through a record of the calls of the C library, each of which may
-- fail.
--
-- Parameters: the values of properties are of any type V, but for the writer, which has the data type
-- Value; `equal` is _blconf_gvalue_is_equal; a Disk says
-- what the files of a channel give and whether unlink fails; ValueOps are the value functions that the
-- reader calls; Users is the user and the groups of the system; Floats are the floating numbers; Markup is
-- g_markup_escape_text; Files are the calls that write a file, and FilesLaws what their documentation says
-- of them; the answers of the daemon are arguments of the cache's functions. Some theorems on the
-- client take a value that the comparison takes for no other (IsExact), which the program's comparison does for
-- unsigned and signed integers but short ones, and those on the timer take channels that Xml/Load.antt makes of
-- files (IsRead). GLib's strings, GNode, GHashTable and GSList are modelled by their documented
-- behaviour; strings are never NULL where D-Bus or a caller of the daemon gives them.
--
-- Conversions are what GLib and the C library do of a transformation between types, and an Abi
-- gives the sizes and alignments of C types, powers of two, so ALIGN_VAL clears a remainder. The memory of a
-- struct is the value of each type that stands at each offset. Channels, objects and signal handlers are
-- numbers to a binding.
--
-- Bounds: buffers of paths hold MAX_PROP_PATH - 1 bytes, and g_strlcpy and g_strlcat cut there, as in the
-- code. `add_property` runs on fuel, the length of the name: each call of itself is on a part
-- of the name that ends before a '/', which is shorter, so the fuel is enough. `digits` runs on fuel, the
-- number itself: a tenth of a number that is not 0 is smaller. The closures of a binding run on fuel 3: the
-- second closure finds the pointer to the side of the first NULL, or calls the first again, which stops. Long and unsigned long have 64 bits, int 32
-- and short 16; the limits of each type are written out.
-- A path is given in
-- the theorems by its components from the last to the first, `rjoin` being its name; IsPath says that no
-- component is empty or has a '/', and that the name fits the buffer.
--
-- Not modelled: the timers of GLib, D-Bus and the daemon's connection to it, the end of a client's cache, the GObject
-- properties of a channel and its end, the search for handlers of blconf_g_property_unbind_all (the disconnections
-- that it makes are steps of Client/Binding/Reach.antt), the options, the listing and the monitor of the command line
-- client, and the Perl binding.
pub mod Base
pub mod Backend
pub mod Tree
pub mod Perchannel
pub mod Daemon
pub mod Xml
pub mod Values
pub mod Writer
pub mod Client
pub mod Examples
