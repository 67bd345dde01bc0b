-- ===== src/Lib.antt =====
-- kube-dc: the procedures of `kube-dc bootstrap` that change a live cluster.
--
-- The program is a command-line client (cli/) of Kubernetes data centres. Most of its own logic is
-- in cli/internal/bootstrap: procedures that an operator starts, that read a cluster through
-- kubectl, SSH, SOPS and the OpenBao client, decide whether a change is safe, and make it in an
-- order that a failure at any point leaves in a known state. This library models eight of them, one
-- that only advises, the gates of a GPU upgrade and of an installation that adopts what a cluster
-- runs, the editor of a cluster's configuration, the manager of kubeconfigs, and four stores,
-- readers and computations that they use.
--
-- NodeRemove is cli/internal/bootstrap/noderemove/remove.go: `Remove`, which takes a node out of
-- the cluster. `resolve` reads the nodes, the etcd pods and the member list, `execute` makes the
-- changes, `remove` is the whole. `Order` has the order of the calls, `Ends` the ends of a run,
-- `Member` the choice of the etcd member and of the pod that is asked.
--
-- GpuTransition is cli/internal/bootstrap/gputransition/transition.go: `Run`, which moves a node
-- from one GPU mode to another. `target_ready` is `targetReady`, `poll` the loop that waits for it,
-- `recheck` the observation after the cordon, `run` the whole.
--
-- OidcCutover is cli/internal/bootstrap/oidccutover: `Config` is config.go, the change of RKE2's
-- file line by line (`patch_config` is `PatchConfig`, and `patch_lines` what it does to the lines);
-- `Cutover` is run.go (`cut_over` is `Run`, `cut_over_nodes` its loop, `roll_back` is `rollback`).
-- The procedure writes what `patch_config` makes of the file that it has read.
--
-- GpuUpgrade is cli/internal/bootstrap/gpuupgrade/gate.go: `GpuUpgrade` has the record, the
-- patterns as recognisers and `canonicalHardware`, `Gate` has `check`, which is `Check`, and
-- `validate_rke2_step`; `Load` is `Load`.
--
-- OpenBao is cli/internal/bootstrap/openbao: `Shares` has the regular expression and the extraction
-- of the unseal shares that the other three use (unseal.go, and `extractAllShares` of reveal.go);
-- `Unseal` is `Unseal` (unseal.go), `GenerateRoot` is `GenerateRoot` (generate_root.go), `Reveal`
-- is `RevealShares` (reveal.go); `ControllerAuth` is `SetupControllerAuth`
-- (setup_controller_auth.go), which makes its calls through a `Port`, so that `Init` can run it
-- among its own. `Init` is `Init` (init.go) in four phases: `Preflight`; `Capture`, which runs the
-- script, takes each payload into a buffer and makes a copy on disk; `Keep`, which encrypts,
-- verifies and commits the shares; and `Finish`. `Payload` is the decoding and the rendering of
-- shares, `Files` the writing of files and the copies of last resort. The callback of the script,
-- which runs beside the reading of its lines, is run before it: it does not touch what the reading
-- does. `Guard` says when each call may be made.
--
-- Secrets is cli/internal/bootstrap/secrets/buffer.go, the buffer of shares and token that `Init`
-- fills, by the values it holds. Drain is cli/internal/bootstrap/ports/drain.go, the reading of a
-- script's lines up to its exit status. EnvFile is cli/internal/bootstrap/config/env.go: the lines
-- of a cluster's environment file with their index (`EnvFile`), the scanner that splits the file into
-- them (`EnvFile.Scan`), and `Write` (`EnvFile.Write`).
--
-- IngressCidr is cli/internal/bootstrap/clusterinit/ingresscidr.go: `derive_ingress_host_cidr` is
-- `DeriveIngressHostCIDR`, the prefix of the ingress nodes' addresses, which are numbers here;
-- `Nodes` has `IngressHostCIDRFor`.
--
-- Topology is cli/internal/bootstrap/topology/topology.go: `Probe`, which reads a cluster and
-- advises on its internal endpoints. `classify` is the function of the name, and each probe has its
-- own; the rule of precedence that it is compared with is in Topology/Probes/Classify. It changes
-- nothing, so the replies of kubectl are an argument, and no history is kept.
--
-- Adopt is the adoption of components that a cluster runs already. `Adopt` is
-- cli/internal/bootstrap/adopt/detect.go (`detect` is `Detect`, `catalog` the table of components),
-- `Pin` is pin.go beside it (`pin_versions` is `PinVersions`; `verdict` is the body of its loop,
-- whose cases are data, and `file` what the loop appends), and `Gate` is
-- cli/internal/bootstrap/clusterinit/adoptgate.go (`check_adopt_pinned` is `CheckAdoptPinned`, with
-- the lines that it prints as data). The cluster is an `Inspector`, its answers in one run.
-- `Gate/After` joins them with the writes of the pins: the pins of one run become assignments of
-- `FleetConfig`, which are written to a store of `EnvFile`, which the gate then reads.
--
-- FleetConfig is cli/internal/bootstrap/fleetconfig/config.go, the checks of assignments and the
-- plan of their changes, with the writes of `applyConfigSet` (cli/cmd/kube-dc/bootstrap_config.go),
-- which are calls of `EnvFile`.
--
-- KubeConfig is cli/internal/kubeconfig/manager.go. `KubeConfig` has what each operation makes of a
-- configuration, and `File` the operations between a load and a save, on a `Disk` in a state of any
-- type and with a `Yaml` library; the theorem on the file takes it that what is written is read and
-- what is printed is parsed. `Calls` has the operations as calls; `Current` and `Closed` have what
-- each call keeps.
--
-- Prelude has what these share: the names of the libraries, Boolean tests, texts with the part of
-- Go's package strings that is used, Go's `strconv.Atoi` (Prelude/Decimal), sorting by a text
-- (Prelude/Sort), and the procedures that call other systems (Prelude/Engine).
--
-- Systems outside of the program are parameters. A procedure is a function of its history: the
-- list, newest first, of the calls made so far, each with its reply. What a system replies is a
-- function of the call and of the history before it, a field of the component's `Env`, so that it
-- may answer the same call differently at different times, and may fail at any. The theorems hold
-- for all such functions, so for all behaviours of the cluster, with no assumption on them but the
-- clock's in the theorem on termination, the size of addresses in that of `IngressCidr`, the file
-- system and the YAML library of `KubeConfig`, and versions without comments in `Adopt/Gate/After`.
-- Decoders and the parsing of times are functions that a theorem takes any of. A predicate `Guard`
-- says of each call what must have been done before it, and `Each` asks it of all the calls of a
-- run, also of a run that fails.
--
-- The errors of the program are values with the data that their messages name. Texts are lists of
-- code points; Go compares and cuts bytes, which agrees on the texts at hand, whose separators are
-- ASCII. JSON that the program decodes comes decoded in the replies, paths come clean. Times and
-- durations are nanoseconds as natural numbers; a negative duration is not represented.
--
-- Loops over lists are by recursion on them. The polling loops of `GpuTransition` and
-- `OidcCutover.Cutover` run on fuel and end with an error of their own, `out_of_fuel`, when it is
-- used up. A round that does not end the loop waits for a nanosecond at least, so fuel for two
-- rounds more than the timeout has nanoseconds is enough where the clock does not go back. The copy
-- of last resort tries a hundred names, as the program does. The search for the shares and for the
-- names of processes has the length of the text as fuel, and each round takes at least one code
-- point.
--
-- Not modelled: lines printed for the operator, apart from the warning on the etcd quorum, the
-- lines of the audit and the output of `OpenBao`, and those of the gate of `Adopt`; the git
-- transaction around the writes of `FleetConfig`; the scrubbing of bytes that held secrets, which
-- no read shows; the cancellation of a context but during a wait; the wording of errors; the adapters that make the calls
-- (cli/internal/bootstrap/adapters); the assembly of YAML and shell scripts in
-- cli/internal/bootstrap/clusterinit, the reads and reports of discover and doctor, and the other
-- packages of cli/internal, of which the most decide little; the charts and the documentation.
pub mod Adopt
pub mod Prelude
pub mod FleetConfig
pub mod KubeConfig
pub mod NodeRemove
pub mod Drain
pub mod EnvFile
pub mod GpuTransition
pub mod GpuUpgrade
pub mod IngressCidr
pub mod OidcCutover
pub mod OpenBao
pub mod Secrets
pub mod Topology
