-- ===== src/Lib.antt =====
-- The Datera CSI plugin: the calls of its controller, node and identity services, and the client of
-- the Datera backend and of the machine below them.
--
-- The parts. A CSI call arrives at a method of the driver (pkg/driver/controller.go, node.go and
-- identity.go). `InitFunc` (pkg/driver/driver.go) refuses it while a call with the same name and
-- arguments is in progress, unless the two calls overtake each other at its map, which has no lock. The
-- method checks the request, reads its parameters, and calls the client
-- (pkg/client), which works on app instances, volumes and snapshots of the backend through
-- github.com/Datera/go-sdk, and on the devices and mounts of the machine by commands and through
-- csi-lib-iscsi. Ids, versions, secrets and errors are translated by pkg/common. The heartbeat of the
-- driver shares its fields with the identity service. iscsi-recv (cmd) runs commands for the driver's
-- container.
--
-- The files.
--   Base          helpers: Go's int64 (Int), strconv (Num), strings (Text), maps (Dict), and calls that
--                 return a value, an error or a panic, with a state (Go).
--   Common        pkg/common/util.go: SnapId (MkSnapId, ParseSnapId, and validateSnapId of the driver),
--                 Version (DatVersionGte), Chap (StripSecretsAndGetChapParams), Errors (ErrTranslator),
--                 Name (GenName), Util (MustS, GetCode, IsGrpcErr, GetCaptureGroups), Context (WithCtxt,
--                 and the calls of pkg/common/log.go); Log (checkArgs of log.go), LogFormat
--                 (LogFormatter of log.go).
--   Client        pkg/client: Sdk (the backend, a parameter), Volume, Policy, Create and Delete
--                 (volume.go), SnapshotList and Snapshots (snapshots.go), Acl (acl.go), System
--                 (system.go; VendorVersion is in Create), IpPool (ip_pool.go), Host (the machine, a
--                 parameter, and RunCmd of pkg/common/util.go), Format, Mount and ExpandFs (mount.go),
--                 Login (login.go), Connect (client.go).
--   Driver        pkg/driver: Calls (logServerAndSetId, and the contexts of InitFunc), Guard (the rest
--                 of InitFunc), Server (NewDateraDriver, Run and the loops beside it), Capability
--                 (RegisterVolumeCapability), Params (parseVolParams, parseSnapParams), CreateVolume,
--                 Volumes and Snapshots (the bodies of the methods of controller.go), Rpc (the methods,
--                 each behind the guard), Node (the methods of node.go behind the guard; the bodies in
--                 Stage, Publish and Usage),
--                 Identity (identity.go and the heartbeat of driver.go), Settings (readEnvVars and what
--                 follows from the driver's type), Env (what the driver takes from its surroundings).
--   Cmd           cmd: IscsiRecv (the methods of the server of cmd/iscsi-recv/main.go) and
--                 IscsiSend (the client of it, cmd/iscsi-send/main.go), Start (the three main functions).
--   Tests         data, and runs of the theorems on them.
-- The theorems on a part stand in child modules that are named for what they are about.
--
-- The correspondence. A Go method is an action: a function from the backend's state to an outcome (a
-- value, an error, a panic) and the state afterwards. A method that returns `(x, error)` ends with `ok`
-- or `err`; a nil dereference, an index out of range and a division by zero end with `panic`. A method
-- that changes its receiver returns the changed record. Strings are texts of Unicode code points, and
-- `len` is the length in bytes. `int` and `int64` are integers with `wrap64` after an operation that may
-- leave the range. The methods and the client stand without the contexts and the log; Calls has these,
-- for any method. A method behind the guard is one call by itself; the steps of several calls on the
-- guard's map, in any order, are in Guard.Exclusion.
--
-- The backend is a record of functions on a state of its own (`Sdk`), and so is the machine (`Host`):
-- its commands, its files, and the calls of csi-lib-iscsi. Nothing is assumed of what they answer, but
-- where a result names it: what grep, readlink, mount and umount do with the table of mounts (Mounts),
-- and stat, mkdir and remove with the files (Files), and that two libraries hand on the values of a
-- context (Carries). A call of the node service is an action on both states. The uuids, the capacity of
-- a slice of runes, the text of a status error and the reading of a time stamp as a float are parameters
-- too (`Env`). The order in which the goroutines of `ListSnapshots` add their results is a parameter,
-- and so is the text of a request in the guard's key.
--
-- Loops are recursions on the list they go over, or on their own counter: the wait in `CreateSnapshot`
-- has 30 rounds, `checkDeviceSize` 61, and `format` the timeout and two more. `checkArgs` warns through
-- a function that calls it: the depth of the calls is its fuel, and 2 is enough. `Sleeper` has fuel too,
-- and any above its number of seconds is enough. `Heartbeater` and `LogPusher` never end by themselves:
-- their rounds are counted, and the sleep between two of them is left out.
--
-- Not modelled: the gRPC server, url.Parse and the listener, the flags and the configuration of the
-- programs, which are parameters; Stop, NewContext, Prettify and GetHost, which are single calls of a
-- library or read a constant; and the generated pkg/iscsi-rpc. An entry of the log is a value, and what
-- the methods and the client log of their own is left out.
pub mod Base
pub mod Common
pub mod Client
pub mod Driver
pub mod Cmd
pub mod Tests
