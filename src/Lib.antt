-- ===== src/Lib.antt =====
-- Pathfinder: the server's service discovery core and the language of its filters.
--
-- A Pathfinder server keeps, for a domain, the clients that are connected, the services that they have
-- published and the subscriptions that they hold. A client that disconnects leaves its services behind as
-- orphans, which are purged when their time to live has passed. A subscription carries a filter over the
-- properties of services, and its owner is told when a service that matches appears, changes or goes.
--
-- Parts and files:
--   Prelude.antt            shared names, Boolean tests, dicts as association lists (Prelude/Dict, and
--                           Prelude/Keys on their keys), methods as state passing with exceptions
--                           (Prelude/Action), integers (Prelude/Int)
--   Filter/Syntax.antt      paf/filter.py, the classes of filters and the property values
--   Filter/Match.antt       paf/filter.py, `match` of each class, with the regular expression of `Substring`
--   Filter/Print.antt       paf/filter.py, `escape` and `__str__`
--   Filter/Parse.antt       paf/filter.py, `parse` and the functions below it
--   Filter/Fatal, Fuel      what a match raises, as other proofs use it, and that the parser ends
--   Sd/Resources.antt       paf/sd.py, `Consumer` and `ResourceManager`; Resources/ holds the ledger and the
--                           proofs about `allocate`, `deallocate` and `transfer`
--   Sd/Timeouts.antt        paf/sd.py, `TimeoutQueue`, and the walk over it in `purge_orphans`
--   Sd/Service.antt         paf/sd.py, `Generation` and `Service`: drafts, setters, commit and rollback
--   Sd/Subscription.antt    paf/sd.py, `Subscription`
--   Sd/Discovery.antt       paf/sd.py, `ServiceDiscovery`: Discovery/Defs holds the state and the commit of a
--                           change, Discovery/Methods one function per method; the other files of Discovery/
--                           hold the invariant and what each method does
--   Proto/Props.antt        paf/proto.py, `PropsField.from_wire` and `to_wire`
--   Proto/Fields.antt       paf/proto.py, the fields of a message and `pull`
--   Proto/Types.antt        paf/proto.py, the table of fields and of transaction types
--   Proto/RoundTrip.antt    paf/proto.py, `put` and `pull` together
--   Proto/Batch.antt        the loops over fields that paf/client.py and paf/server.py share; Batch/Entries
--                           describes what they put and pull
--   Client.antt             paf/client.py, `Transaction`; Client/Steps holds the proofs
--   Server/Transaction.antt paf/server.py, `Transaction`; Transaction/ holds what its messages and requests
--                           are at the client's end
--   Server/UserId.antt      paf/server.py, `determine_user_id`
--   Server/State.antt       paf/server.py, the state of `Server` and `Connection`, `respond` and the callbacks
--   Server/Handlers.antt    paf/server.py, one function per request
--   Server/Connection.antt  paf/server.py, `request`, `try_receive` and `try_send`
--   Server/Listener.antt    paf/server.py, `activate`, `terminate` and the methods of `Server`;
--                           Listener/Capacity holds the limit on connections
--   Server/Connection/      what a batch sends
--   Server/Consistency.antt the invariant of connections and clients; Consistency/ holds the rules for methods
--                           that keep it, the handlers one by one, and runs of the event loop's calls
--   EventLoop.antt          paf/eventloop.py, `Source` and the tables of `EventLoop`; EventLoop/Synced, Listening,
--                           Matching, Members and Leaving hold what keeps them in step, EventLoop/Due the timeouts
--   Conf.antt               paf/conf.py, `populate` and what is below it; Conf/Limit holds the limits
--   Tests.antt              concrete states and what the theorems say of them
--
-- Correspondence: a method of an object is a function from its state to a result and a state, so that what was
-- written before an exception stays written. A result is a value or one of the exceptions of sd.py
-- (`permission_error`, `not_found_error` and so on) or of Python itself (`key_error`, `assertion_error`,
-- `attribute_error`, `type_error`); the latter are caught nowhere. `xcm_error` is the transport library's,
-- where a call of a socket raises it outside of a `try`. The callbacks (`match_cb`,
-- `service_change_cb`) are a history of calls in the state, which the server's model makes when the method
-- of `ServiceDiscovery` is done. The table of log facilities is an argument of the reading of a
-- configuration. What a socket does is an argument of the methods that use it, and messages stand as they
-- are before `json.dumps` and after `json.loads`. Dicts keep the order of insertion, as Python's
-- do. The time that `time.time()` returns is an argument, a whole number of microseconds, while a time to
-- live is in seconds. A service that is being changed is a copy that is written back to the dict, which
-- is the object's only other holder.
--
-- Fuel: the loops and the recursion of the parser take fuel, one unit for a call. `parse` gives the length
-- of what is left plus one; between a call and the calls that it makes a character is consumed. The decimal
-- print of a number takes the number plus one, which is at least the number of its digits.
--
-- Not modelled: the loop `run` of the event loop, epoll and signals (paf/eventloop.py), the binding of the
-- transport library (paf/xcm.py), the printing of the configuration (paf/conf.py), the start as a daemon and
-- logging, the command line tools, and the rest of paf/client.py, which waits on a connection.
-- Texts are lists of character codes; the white space that Python's `int` strips is not read, since the
-- parser refuses it. `int` also reads decimal digits that are not ASCII; the model refuses a comparison
-- with such a number.
pub mod Prelude
pub mod Filter
pub mod Sd
pub mod Proto
pub mod Client
pub mod Server
pub mod Conf
pub mod EventLoop
pub mod Tests
