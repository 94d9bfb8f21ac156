-- ===== src/Lib.antt =====
-- foxplay-game: the code in TypeScript that keeps the servers, and the controller of the game
-- hosts.
--
-- Instances. frontend/app/api/instances keeps a table of virtual machines in Postgres and has the
-- instance-manager, a service behind HTTP, create, start, stop and remove them. Models is
-- frontend/lib/models.ts and frontend/lib/id.ts: the forms of ids, names and keys, and the parsing
-- of a request's body. Server is what the routes work with: the tables (Server.Rows), exceptions,
-- the statements that the database executes or refuses, and frontend/lib/instanceManager.ts
-- (Server.Manager). Instances is the routes: GET and POST of instances/route.ts, GET and DELETE of
-- instances/[id]/route.ts, and POST of instances/[id]/start/route.ts and
-- instances/[id]/stop/route.ts; Instances.Images is frontend/app/api/images/route.ts.
-- Instances.Table is their SQL statements as functions of the rows. Instances.Invariant, Create,
-- Lifecycle, Listing, Found, History, Deleted and Race prove what they do to the table. Models.Ids
-- and Ids.Short are about the forms of ids, and Models.Schemas about what the schemas accept.
--
-- Registry. The routes of functions (frontend/app/api/functions/route.ts and DELETE of
-- functions/[id]/route.ts, which has the artifact store delete the code first) and of saved ssh
-- keys (frontend/app/api/ssh-keys/route.ts and ssh-keys/[id]/route.ts) keep two tables of one
-- form. Registry is that form, an interface of columns that both tables fill, with its statements;
-- Registry.Functions and Registry.Keys are the routes, and Registry.Laws, Functions.Deletion,
-- Keys.Saved and Registry.History prove what they do.
--
-- Activity. Activity is the listing of a function's invocations
-- (frontend/app/api/functions/[id]/invocations/route.ts) and Activity.Detail is GET of
-- functions/[id]/route.ts, which adds up a function's invocations. Activity.Paging is the
-- parameters `limit` and `offset`, numbers of JavaScript until the database takes them.
-- Activity.Pages and Detail.Aggregates prove what is shown. Activity.Metrics is the listing of an
-- instance's samples (frontend/app/api/instances/[id]/metrics/route.ts), by the same lemmas.
--
-- Editor. Editor is the keys of the payload's text area (frontend/features/functions/lib/json.ts,
-- handleJsonKeyDown) and Editor.Pairs what brackets and quotes do.
--
-- Controller. controller/src runs containers on a host through podman and stores their backups in
-- a bucket. Controller.Games is Games.ts, Controller.Ports is Ports.ts, Controller.Podman is
-- Podman.ts, Controller.Backup is Backup.ts, Controller.Names is AlphanumericalGenerator.ts.
-- Controller.Assign, Controller.Routes and Controller.Schedule are index.ts: the ports that a new
-- container gets, the routes that create, stop, start and destroy a container, and the rounds of
-- the backups (Schedule.Loops). The route that creates uses all of the others: it looks the game
-- up, draws a name, searches the ports that /proc/net does not list, assigns them and asks podman.
-- Routes.Steps, Routes.Creation and Routes.Hosted are about it, Ports.Parse, Ports.Columns,
-- Ports.Lines and Ports.Search about the ports, and Assign.Mapping about the assignment.
--
-- Client. The pages of frontend/features, as what their handlers do with answers, fields and
-- clicks. Client.Requests is the state of a query and the fetchers of
-- features/functions/lib/api.ts and features/servers/lib/api.ts; Client.Hooks the requests of the
-- three hooks; Client.Queries is the keys, the paths and the intervals of all queries and what an
-- action invalidates, with Queries.Refetch about it. Client.Frame is components/Sidebar.tsx and
-- components/Header.tsx. Client.Lists is the lists of servers, functions and keys
-- (ServersClient.tsx, InstanceList.tsx, StateBadge.tsx, FunctionsClient.tsx, FunctionList.tsx,
-- SshKeysClient.tsx); Lists.Opened follows a row of the list through the frame and the routes of
-- Instances to the page that it leads to, and Lists.Words and Lists.Summary are about the short
-- form of a key. Client.Runs is features/functions/components/FunctionDetails.tsx; Client.Paged
-- sets its pages against the route that Activity models, and Client.Paging is its buttons, which
-- features/servers/components/InstanceDetailClient.tsx has alike. That page is Client.Server, and
-- Server.Busy is about its requests under way. Client.Create is CreateInstanceClient.tsx with the
-- forms of features/ssh-keys/components; Create.Accepted and Create.Sent are about what they send.
-- Client.Inputs is what the user puts into UploadForm.tsx, by FileDropzone.tsx too, and
-- PayloadEditor.tsx, with Inputs.Chosen about the file that is chosen. Client.Upload is
-- UploadForm.tsx: Upload.Saga is about its roll-back in front of any services, and Upload.Routed
-- and Upload.Served put it in front of the routes of Registry. Client.Function is
-- FunctionDetailClient.tsx, with Function.Ended about how an invocation ends, Client.Events is the
-- event that a function is invoked with (features/functions/lib/json.ts), with Events.Headers and
-- Events.Normal about its form, and Client.Toasts is frontend/components/Toast.tsx, with
-- Toasts.Shown about which toasts are shown when.
--
-- Codegen. database/codegen.mjs writes, or with `--check` compares, the types of the tables for
-- TypeScript and Go. Codegen.Render is the two texts, Codegen.Grouping the map of the tables, and
-- Codegen.Files the program, from the address of the database to the exit code; Codegen.Imports,
-- Codegen.Settled, Codegen.Roundtrip and Codegen.Check prove what it does. The file system is a
-- record whose laws the theorem names; `upper` is `toUpperCase` of one character and `inherited`
-- what every object has under a name.
--
-- A route is a function of the state to its response and the new state. The state of the
-- frontend's routes is `World`: the tables, what the database will throw for the next statements,
-- and the state of the instance-manager, on which the parameter `fetch` acts; `parse` is
-- `JSON.parse`, `encode` is `encodeURIComponent`, `number` is `Number` of a text, `order` is the
-- order in which the database answers a statement with `ORDER BY created_at DESC` and a limit
-- (what it does with rows of one time is left open), `average` and `recent` are the database's
-- average and its test for the last hour, `sorted` is the order of the database by name, `zod`
-- words the messages of zod for a value of a wrong type. The state of the controller's routes is
-- any type on which the parameters `http` (podman's socket), `mkdir` and `read` (files of
-- /proc/net) act, and a backup acts on the state of its `Services`. The pages act on the state of
-- whatever answers their requests. What a theorem assumes of such a parameter is written out with
-- it: the laws of a property for the backup and for what the forms send, the laws of a file system
-- for the type generator, the reading of decimal digits for the pages of runs, and for a
-- deployment that fails, that the artifact store deletes what it is asked to delete.
--
-- No function runs on fuel: each loop of the code goes over a list or a range of numbers, but for
-- the two endless loops of the controller, which are taken by rounds, any number of them. The
-- octet of an address and the ports are natural numbers: the code's sums stay far below 2 ^ 53.
--
-- Not modelled: the markup and the styles of the pages, the query library (which queries it takes
-- for one key is a parameter, `matches`), the services in Go, the other programs in TypeScript
-- (brain, rcon), the configuration of loggers and of Next.js, the generated types of the rows, and
-- the clocks and random numbers, which are arguments. A state that is a name which every object of
-- JavaScript inherits would be given another class by StateBadge.tsx; no state of the table is
-- one. The routes are one step each, except in Instances.Race, where the statements of two
-- requests interleave.
pub mod Common
pub mod Json
pub mod Models
pub mod Server
pub mod Instances
pub mod Registry
pub mod Activity
pub mod Controller
pub mod Editor
pub mod Codegen
pub mod Client
