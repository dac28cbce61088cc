-- ===== src/Lib.antt =====
-- greasewood, a WireGuard mesh whose nodes trust the keys of a certificate authority (CA): the parts
-- of the daemon that decide who is a member, under which name and address, and who may peer with
-- whom.
--
-- How the parts interact. A CA (greasewood/ca.py) signs credentials and statements. A node puts its
-- credential into a record that it signs itself (greasewood/wire.py). Records and statements spread
-- by gossip: every node merges what it is given into a directory (greasewood/directory.py) and a log
-- of statements (greasewood/statements.py), which carry the same rule, that the newest entry under a
-- key wins. A signed table of grants (greasewood/policy.py) decides which nodes peer; each pass of
-- the reconciler (greasewood/reconcile.py) verifies the directory, asks the policy, and makes
-- WireGuard's peers what they then should be; the port filter (greasewood/portfilter.py) narrows
-- what flows between peers, and nodes testify which endpoints of each other they reach
-- (greasewood/attest.py). Nodes reach an anchor over its control plane (greasewood/server.py), which
-- serves the CA: they pull its directory and its log (greasewood/sync.py), and they renew their
-- credentials and publish their records there (greasewood/renewal.py). A newcomer gets its first
-- credential over the door (greasewood/enroll.py), and the hosts file of each node names the members
-- (greasewood/hosts.py). Its invitation is a token of text (greasewood/door.py). A release that the
-- CA announces in a statement is installed by the nodes that opt in (greasewood/upgrade.py).
--
-- Files.
--   Base, Errors     lists, texts as code points, Python's dicts; the exceptions as values
--   Latest           the abstract map that `merge` of the directory and of the log implement: an offer
--                    under a key is accepted when its rank is above the rank of what the key holds
--   Wire             greasewood/wire.py and the addresses of greasewood/keys.py: Wire/Json is
--                    `_canonical`, Wire/Time is `_ts`, Wire/Credential, Record, Statement, Grants and
--                    Requests are the classes with `_body_dict`, `sign` and `verify`, Wire/Decode is
--                    `from_dict` and `to_dict` of two of them, Wire/Crypto what the code calls outside the
--                    repository
--   Directory        greasewood/directory.py, class Directory
--   Statements       greasewood/statements.py, class StatementLog
--   Policy           greasewood/policy.py: Policy/Tags and Peering are `node_tags` and `peers_allowed`,
--                    Policy/Delta `tunnel_delta`, Policy/Adoption class GrantPolicy, Policy/Signer class
--                    AnchorPolicySigner
--   Ca               greasewood/ca.py, class CA: Ca/Defs the state and the reads, Ca/Methods the methods
--   Reconcile        greasewood/reconcile.py: Reconcile/Tracker is `_EndpointTracker`, Reconcile/Pass
--                    and Diff are `reconcile_once`, Reconcile/Exact its effect on the kernel's peers
--   PortFilter       greasewood/portfilter.py: PortFilter/Defs is `_port_allowances` and
--                    `_fully_open`, PortFilter/Render `render_ruleset`, PortFilter/Filter class PortFilter
--   Attest           greasewood/attest.py, class AttestLog
--   Server           greasewood/server.py: Server/Guard is `_ReplayGuard`, Server/Defs and Cert the
--                    handlers of `_Handler` and `do_POST`, Server/Offer the offers of
--                    greasewood/anchorfile.py that a handler serves
--   Sync             greasewood/sync.py, class SyncLoop: Sync/Pull is `_pull_once`
--   Renewal          greasewood/renewal.py, class RenewalLoop: Renewal/Schedule is when it renews,
--                    Renewal/Defs what it then does, Renewal/Landing the way of a renewed credential from
--                    the CA by the node to the anchors
--   Enroll           greasewood/enroll.py, class EnrollServer: Enroll/Defs is `_validate_request` and
--                    `_issue_and_install`, Enroll/Window `_handle` and `_serve`; class DoorWatcher:
--                    Enroll/Watcher is `_tick` and what it calls, with `on_done`
--   Door             greasewood/door.py: Door/Token is `encode_token` and `decode_token`, Door/Menu and
--                    Slices what they do to texts and bytes
--   Upgrade          greasewood/upgrade.py: Upgrade/Version is `is_newer`, Upgrade/Manager class
--                    UpgradeManager
--   Loops            the ticks of greasewood/loop.py, endpoints.py and sweep.py in Loops/Ticks, and
--                    `_maybe_publish_reachable` of greasewood/reconcile.py in Loops/Publish
--   Host             Host/Ports is `_free_listen_port` of greasewood/cli/_common.py, Host/Firewall is
--                    greasewood/firewall.py
--   Segments         greasewood/status.py: Segments/Find and Analysis are `_segment_analysis`, the other
--                    files its loops
--   Hosts            greasewood/hosts.py: Hosts/Label and Names are the label pattern and the names,
--                    Hosts/Block is the managed block, `sync` and `remove_block`, Hosts/Survival what `sync` keeps
--   Examples         runs on small inputs, under a signature scheme that can be computed with
--
-- State and operations. Each class is the record or the dict of its fields, each method a function
-- of that state with the method's name; a method that raises gives an `Error` beside the state that
-- it leaves. The locks of the classes make each method one step, and runs of steps are data types
-- (`Step`, `Life`). Instants and durations are numbers of microseconds, from the start of 1970, and
-- a method reads the clock once; that `datetime` ends with the year 9999 is left out. JSON has no
-- floats and no negative numbers, for the signed bodies hold none. A request is handled as one step,
-- though the control plane serves requests in threads. Loops run over finite lists: a loop that
-- waits, or that asks one machine after the other, runs over the list of what each round reads or is
-- answered, and where the list can end before the loop does, a theorem says how long a list is
-- enough. The search for a free port has as many rounds of fuel as ports are in use, and one more,
-- and is shown to end within them. The searches of the connectivity report have one round more than
-- there are pairs of nodes, which is above the depth of any tree. The dict of parents has every
-- address that is looked up, and is a function. The upgrades and the publication of live links read
-- the monotonic clock, in seconds.
--
-- Taken from outside. Ed25519, BLAKE2s and the text form of IPv6 addresses are the argument
-- `Crypto`, and `IsLawful` states what their documentation promises and the theorems use: what a key
-- signs verifies under its public key, keys and digests have 32 bytes, and the text of an address
-- parses back to its bytes. The kernel's set of peers is the argument `Kernel`, with what wg(8)
-- documents of `wg set`. What wg.py asks of nft is the argument `Nft`, with what nft(8) documents of
-- scripts that replace a table. Base64 and UTF-8 are the argument `Codec` of the join token, and the
-- parse of ISO times and of base64 the argument `Reader` of the wire objects. The issue of an X.509
-- certificate is the argument `issue_tls`, a random draw is an argument with the bounds of
-- `random.uniform`, and what another machine answers is an argument without any. No theorem assumes
-- that signatures cannot be forged: where it matters, the statements say that a trusted key verifies
-- the signature.
--
-- Not modelled: files and their locks, HTTP, threads and timers, the commands run on the host, the
-- X.509 certificates themselves, the parse of wire objects other than credentials and testimonies
-- from JSON (`from_dict`, whose result is an argument), the door's interface and its window file,
-- the configuration, the tables and texts of the status, and the command line.
pub mod Base
pub mod Errors
pub mod Latest
pub mod Hosts
pub mod Wire
pub mod Directory
pub mod Statements
pub mod Policy
pub mod Ca
pub mod PortFilter
pub mod Attest
pub mod Server
pub mod Enroll
pub mod Door
pub mod Upgrade
pub mod Host
pub mod Sync
pub mod Renewal
pub mod Reconcile
pub mod Loops
pub mod Segments
pub mod Examples
